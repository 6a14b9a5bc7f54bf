-- ===== src/Prep/Loop/Shrinks.antt =====
-- agents/graph_nodes.py: every pass of the mapping loop takes a document off those that wait.
use interview_coach.Base.{
  ℕ, ◌≤◌, ◌<◌, ◌≡◌, ◌≢◌, inl, inr, refl, sym, ap, subst, ◌∙◌, Bool, true, false, not, ◌&&◌, ◌||◌,
  Option, some, List, [], ◌∷◌, ◌++◌, map, keep, any, length, ◌==◌, ==_iff, if◌then◌else◌,
  Bool-cases, arith,
}
use interview_coach.Text.{Text}
use interview_coach.Db.Models.{Document, Extracted, MappingRow, DocumentMapping, Db}
use interview_coach.Db.Documents.{is_project_doc, document_key, update_where, update_document_title}
use interview_coach.Mapping.RoundTrip.{stamp}
use interview_coach.Prep.Readiness.{mapped, list_unmapped_project_docs_for_user}
use interview_coach.Prep.Mappings.{ProfileJson, changed, apply_mapping}
use interview_coach.Prep.Mappings.Writes.{apply_mapping-tables}
use interview_coach.Prep.Loop.{skipped, add_skip, pending_docs}

module _ {A : Type 0} where
  keep-keep : (p q : A → Bool) (xs : List A) → keep p (keep q xs) ≡ keep (λ x. q x && p x) xs
  keep-keep p q [] = refl
  keep-keep p q (x ∷ xs) = ground (arith, keep-keep p q xs)

  keep_fewer :
      (p q : A → Bool) (xs : List A)
      → ((x : A) → q x ≡ true → p x ≡ true)
      → length (keep q xs) ≤ length (keep p xs)
  keep_fewer p q [] h = omega arith
  keep_fewer p q (x ∷ xs) h = ground (arith, h x, keep_fewer p q xs h)

  cons_injective : {x y : A} {xs ys : List A} → x ∷ xs ≡ y ∷ ys → x ≡ y
  cons_injective e = cc

  -- A stricter test that refuses the first element keeps fewer.
  keep_shrinks :
      (p q : A → Bool) (xs : List A) (d : A) (ds : List A)
      → keep p xs ≡ d ∷ ds
      → ((x : A) → q x ≡ true → p x ≡ true)
      → q d ≡ false
      → length (keep q xs) < length (keep p xs)
  keep_shrinks p q [] d ds e h n = cc
  keep_shrinks p q (x ∷ xs) d ds e h n = elim (Bool-cases (p x)) [
    | inl t ↦
        let first : x ≡ d =
          cons_injective (sym (ap (λ c. if c then x ∷ keep p xs else keep p xs) t) ∙ e) in
        let refused : q x ≡ false = ap q first ∙ n in
        ground (arith, t, refused, keep_fewer p q xs h)
    | inr t ↦
        let rest : keep p xs ≡ d ∷ ds =
          sym (ap (λ c. if c then x ∷ keep p xs else keep p xs) t) ∙ e in
        ground (arith, t, h x, keep_shrinks p q xs d ds rest h n)
  ]

  keep-update_where :
      (q hit : A → Bool) (f : A → A) (xs : List A)
      → ((x : A) → q (f x) ≡ q x)
      → length (keep q (update_where hit f xs)) ≡ length (keep q xs)
  keep-update_where q hit f [] h = refl
  keep-update_where q hit f (x ∷ xs) h = ground (arith, h x, keep-update_where q hit f xs h)

-- The test on a document that waits
abbrev pub waits : List DocumentMapping → ℕ → List ℕ → Document → Bool
waits ms user_id skiplist d =
    d.user_id == user_id
    && is_project_doc d.kind
    && not (any (λ m. m.document_id == d.id) ms)
    && not (skipped d.id skiplist)

any-append : {A : Type 0} (p : A → Bool) (xs ys : List A) → any p (xs ++ ys) ≡ any p xs || any p ys
any-append p [] ys = refl
any-append p (x ∷ xs) ys = ground (arith, any-append p xs ys)

skipped-add_skip :
    (i j : ℕ) (skiplist : List ℕ) → skipped j (add_skip i skiplist) ≡ i == j || skipped j skiplist
skipped-add_skip i j skiplist = ground (
  arith,
  any-append (λ k. k == j) skiplist (i ∷ []),
  λ (e : i ≡ j). ap (λ k. skipped k skiplist) e,
)

any-replaced :
    (i j : ℕ) (ms : List DocumentMapping)
    → i ≢ j
    → any (λ m. m.document_id == j) (keep (λ m. not (m.document_id == i)) ms)
      ≡ any (λ m. m.document_id == j) ms
any-replaced i j [] n = refl
any-replaced i j (m ∷ ms) n = ground (arith, n, any-replaced i j ms n)

abbrev names : ℕ → DocumentMapping → Bool
names j m = m.document_id == j

abbrev new_mappings : List DocumentMapping → ℕ → ℕ → List MappingRow → List DocumentMapping
new_mappings ms i user_id rows =
    keep (λ m. not (m.document_id == i)) ms
    ++ map (λ r. record { document_id = i; user_id = user_id; row = r }) rows

any-mapped :
    (i user_id : ℕ) (rows : List MappingRow)
    → rows ≢ []
    → any (names i) (map (λ r. record { document_id = i; user_id = user_id; row = r }) rows) ≡ true
any-mapped i user_id [] n = absurd (n refl)
any-mapped i user_id (r ∷ rows) n = ground arith

still_mapped :
    (ms : List DocumentMapping) (i j user_id : ℕ) (rows : List MappingRow)
    → rows ≢ []
    → any (names j) ms ≡ true
    → any (names j) (new_mappings ms i user_id rows) ≡ true
still_mapped ms i j user_id rows n h = elim (Bool-cases (i == j)) [
  | inl e ↦
      any-append (names j) (keep (λ m. not (m.document_id == i)) ms)
        (map (λ r. record { document_id = i; user_id = user_id; row = r }) rows)
      ∙ ground (
        arith,
        subst
            (λ k.
              any (names k) (map (λ r. record { document_id = i; user_id = user_id; row = r }) rows)
              ≡ true)
            ((==_iff i j).0 e) (any-mapped i user_id rows n),
      )
  | inr e ↦
      any-append (names j) (keep (λ m. not (m.document_id == i)) ms)
        (map (λ r. record { document_id = i; user_id = user_id; row = r }) rows)
      ∙ ground (arith, h, any-replaced i j ms (ground (arith, e)))
]

module _ {V : Type 0} where
  pub pending_docs-waits :
      (db : Db V) (user_id : ℕ) (skiplist : List ℕ)
      → pending_docs db user_id skiplist ≡ keep (waits db.mappings user_id skiplist) db.documents
  unfolding pending_docs list_unmapped_project_docs_for_user
  pending_docs-waits db user_id skiplist =
      keep-keep (λ d. not (skipped d.id skiplist))
        (λ d. d.user_id == user_id && is_project_doc d.kind && not (mapped db d.id)) db.documents

  -- How many documents wait.
  abbrev pub waiting : Db V → ℕ → List ℕ → ℕ
  waiting db user_id skiplist = length (keep (waits db.mappings user_id skiplist) db.documents)

  -- The same documents wait, under any mappings and any skiplist.
  pub record SameWaiting (db db' : Db V) (user_id : ℕ) : Type 0 where
    pub mappings : db'.mappings ≡ db.mappings
    pub counts :
        (ms : List DocumentMapping) (skiplist : List ℕ)
        → length (keep (waits ms user_id skiplist) db'.documents)
          ≡ length (keep (waits ms user_id skiplist) db.documents)

  pub SameWaiting-self : (db : Db V) (user_id : ℕ) → SameWaiting db db user_id
  SameWaiting-self db user_id = record { mappings = refl; counts = λ ms s. refl }

  pub update_document_title-SameWaiting :
      (db : Db V) (document_id user_id : ℕ) (title : Text)
      → SameWaiting db (update_document_title db document_id user_id title).0 user_id
  unfolding update_document_title
  update_document_title-SameWaiting db document_id user_id title = record {
    mappings = refl;
    counts = λ ms s.
        keep-update_where (waits ms user_id s) (document_key document_id user_id)
          (λ d. record d { project_title = some title }) db.documents (λ d. refl);
  }

  -- A document that is put on the skiplist waits no more.
  pub skip-shrinks :
      (db db' : Db V) (user_id : ℕ) (skiplist : List ℕ) (d : Document) (ds : List Document)
      → pending_docs db user_id skiplist ≡ d ∷ ds
      → SameWaiting db db' user_id
      → waiting db' user_id (add_skip d.id skiplist) < waiting db user_id skiplist
  skip-shrinks db db' user_id skiplist d ds h same =
      let fewer : length (keep (waits db.mappings user_id (add_skip d.id skiplist)) db.documents)
          < waiting db user_id skiplist =
        keep_shrinks (waits db.mappings user_id skiplist)
          (waits db.mappings user_id (add_skip d.id skiplist)) db.documents d ds
          (sym (pending_docs-waits db user_id skiplist) ∙ h)
          (λ x w. ground (arith, w, skipped-add_skip d.id x.id skiplist))
          (ground (arith, skipped-add_skip d.id d.id skiplist)) in
      subst (λ n. n < waiting db user_id skiplist)
        (sym (
          ap (λ ms. length (keep (waits ms user_id (add_skip d.id skiplist)) db'.documents))
            same.mappings
          ∙ same.counts db.mappings (add_skip d.id skiplist)))
        fewer

  -- A document that is mapped waits no more.
  pub apply-shrinks :
      (json : ProfileJson V) (db db' db'' : Db V) (user_id : ℕ) (skiplist : List ℕ) (d : Document)
      (ds : List Document) (rows : List MappingRow) (extracted : Option Extracted) (title : Text)
      (n : ℕ)
      → pending_docs db user_id skiplist ≡ d ∷ ds
      → SameWaiting db db' user_id
      → rows ≢ []
      → apply_mapping json db' d.id user_id rows extracted title ≡ changed db'' n
      → waiting db'' user_id skiplist < waiting db user_id skiplist
  apply-shrinks json db db' db'' user_id skiplist d ds rows extracted title n h same given done =
      let (docs, maps) =
        apply_mapping-tables json db' db'' d.id user_id rows extracted title n done in
      let stamped = map (stamp extracted) rows in
      let ms = new_mappings db.mappings d.id user_id stamped in
      let nonempty : stamped ≢ [] = map_nonempty rows given in
      let fewer : length (keep (waits ms user_id skiplist) db.documents)
          < waiting db user_id skiplist =
        keep_shrinks (waits db.mappings user_id skiplist) (waits ms user_id skiplist) db.documents d
          ds (sym (pending_docs-waits db user_id skiplist) ∙ h)
          (λ x w. ground (arith, w, still_mapped db.mappings d.id x.id user_id stamped nonempty))
          (ground (
            arith,
            any-append (names d.id) (keep (λ m. not (m.document_id == d.id)) db.mappings)
                (map (λ r. record { document_id = d.id; user_id = user_id; row = r }) stamped),
            any-mapped d.id user_id stamped nonempty,
          )) in
      subst (λ k. k < waiting db user_id skiplist)
        (sym (
          ap (λ ns. length (keep (waits ns user_id skiplist) db''.documents))
            (maps ∙ ap (λ ns. new_mappings ns d.id user_id stamped) same.mappings)
          ∙ ap (λ es. length (keep (waits ms user_id skiplist) es)) docs
          ∙ same.counts ms skiplist))
        fewer
    where
      map_nonempty : (rs : List MappingRow) → rs ≢ [] → map (stamp extracted) rs ≢ []
      map_nonempty [] k = k
      map_nonempty (r ∷ rs) k = λ e. cc
