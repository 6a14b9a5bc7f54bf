-- ===== src/Github/Nodes/Ids.antt =====
-- db/repos.py: documents with distinct ids, as the primary key of their table has it.
use interview_coach.Base.{
  ℕ, ◌≡◌, refl, sym, ap, subst, ◌∙◌, Bool, true, false, some, List, [], ◌∷◌, ◌++◌, All, All-keep,
  All_weaken, All-append, keep, find, ◌==◌, if◌then◌else◌, arith,
}
use interview_coach.Db.Models.{Document}
use interview_coach.Db.Documents.{update_where}

-- No document has the id.
abbrev pub Unused : ℕ → List Document → Type 0
Unused n ds = All (λ d. (d.id == n) ≡ false) ds

abbrev pub Distinct : List Document → Type 0
Distinct [] = Unit
Distinct (d ∷ ds) = Unused d.id ds × Distinct ds

pub Distinct-keep : (p : Document → Bool) (ds : List Document) → Distinct ds → Distinct (keep p ds)
Distinct-keep p [] h = tt
Distinct-keep p (d ∷ ds) (h, hs) = by_test (p d) (Distinct-keep p ds hs)
  where
    by_test : (b : Bool) → Distinct (keep p ds) → Distinct (if b then d ∷ keep p ds else keep p ds)
    by_test true r = (All-keep (λ e. (e.id == d.id) ≡ false) p ds h, r)
    by_test false r = r

pub Distinct-append :
    (ds : List Document) (d : Document) → Unused d.id ds → Distinct ds → Distinct (ds ++ d ∷ [])
Distinct-append [] d u h = (tt, tt)
Distinct-append (e ∷ es) d (u, us) (h, hs) = (
  All-append (λ x. (x.id == e.id) ≡ false) es (d ∷ []) h (ground (arith, u), tt),
  Distinct-append es d us hs,
)

module _ (hit : Document → Bool) (f : Document → Document)
    (same : (d : Document) → (f d).id ≡ d.id) where
  updated_id : (d : Document) (b : Bool) → (if b then f d else d).id ≡ d.id
  updated_id d true = same d
  updated_id d false = refl

  Unused-update : (n : ℕ) (ds : List Document) → Unused n ds → Unused n (update_where hit f ds)
  Unused-update n [] h = tt
  Unused-update n (d ∷ ds) (h, hs) =
      (ap (λ i. i == n) (updated_id d (hit d)) ∙ h, Unused-update n ds hs)

  pub Distinct-update : (ds : List Document) → Distinct ds → Distinct (update_where hit f ds)
  Distinct-update [] h = tt
  Distinct-update (d ∷ ds) (h, hs) = (
    subst (λ i. Unused i (update_where hit f ds)) (sym (updated_id d (hit d)))
        (Unused-update d.id ds h),
    Distinct-update ds hs,
  )

some_injective : {x y : Document} → some x ≡ some y → x ≡ y
some_injective e = cc

found-Used :
    (hit : Document → Bool) (n : ℕ) (ds : List Document) (doc : Document)
    → Unused n ds
    → find hit ds ≡ some doc
    → (doc.id == n) ≡ false
found-Used hit n [] doc u e = cc
found-Used hit n (d ∷ ds) doc (u, us) e = by_test (hit d) e (found-Used hit n ds doc us)
  where
    by_test :
        (b : Bool)
        → (if b then some d else find hit ds) ≡ some doc
        → (find hit ds ≡ some doc → (doc.id == n) ≡ false)
        → (doc.id == n) ≡ false
    by_test true e r = subst (λ x. (x.id == n) ≡ false) (some_injective e) u
    by_test false e r = r e

-- Only the document that was found has its id.
pub by_id-found :
    (hit : Document → Bool) (ds : List Document) (doc : Document)
    → Distinct ds
    → find hit ds ≡ some doc
    → All (λ d. (d.id == doc.id) ≡ true → hit d ≡ true) ds
by_id-found hit [] doc h e = tt
by_id-found hit (d ∷ ds) doc (u, us) e = by_test (hit d) refl e (by_id-found hit ds doc us)
  where
    by_test :
        (b : Bool)
        → hit d ≡ b
        → (if b then some d else find hit ds) ≡ some doc
        → (find hit ds ≡ some doc → All (λ x. (x.id == doc.id) ≡ true → hit x ≡ true) ds)
        → ((d.id == doc.id) ≡ true → hit d ≡ true)
          × All (λ x. (x.id == doc.id) ≡ true → hit x ≡ true) ds
    by_test true k e r = (
      λ t. k,
      All_weaken (λ x. (x.id == d.id) ≡ false) (λ x. (x.id == doc.id) ≡ true → hit x ≡ true) ds
          (λ x f t. clash x f (ap (λ y. x.id == y.id) (some_injective e) ∙ t)) u,
    )
      where
        clash : (x : Document) → (x.id == d.id) ≡ false → (x.id == d.id) ≡ true → hit x ≡ true
        clash x f t = ground (arith, f, t)
    by_test false k e r = (λ t. clash t (found-Used hit d.id ds doc u e), r e)
      where
        clash : (d.id == doc.id) ≡ true → (doc.id == d.id) ≡ false → hit d ≡ true
        clash t f = ground (arith, f, t)
