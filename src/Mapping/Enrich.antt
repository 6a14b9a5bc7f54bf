-- ===== src/Mapping/Enrich.antt =====
-- agents/nodes/doc_intake.py: what a row of kind `highlight` adds to a highlight is taken off again.
use interview_coach.Base.{
  ℕ, ◌≡◌, refl, ap, ◌∙◌, Bool, true, false, not, ◌&&◌, ◌||◌, Option, none, some, List, [], ◌∷◌,
  ◌++◌, keep-append, any, append-nil, ◌==◌, if◌then◌else◌, arith,
}
use interview_coach.Text.{Text, text_eq_self, member}
use interview_coach.Profile.{Highlight}
use interview_coach.Db.Models.{Extracted}
use interview_coach.Mapping.{blank, filled, add_missing, add_id, fill_description, enrich}
use interview_coach.Mapping.Revert.{
  same_description, without, without_id, clear_description, impoverish,
}

-- Of texts: none of `xs` is in `ts`.
abbrev pub disjoint : List Text → List Text → Bool
disjoint [] ts = true
disjoint (x ∷ xs) ts = not (member x ts) && disjoint xs ts

-- Every text of `ts` but the blank ones is in `xs`.
abbrev pub covers : List Text → List Text → Bool
covers xs [] = true
covers xs (t ∷ ts) = (blank t || member t xs) && covers xs ts

-- The document is not a source yet, and what it says is not there yet: no tech item, no URL and no
-- description.
abbrev pub fresh_description : Option Text → Option Text → Bool
fresh_description new none = true
fresh_description new (some []) = not (filled new)
fresh_description new (some (c ∷ s)) = not (same_description (some (c ∷ s)) new)

abbrev pub fresh_highlight : ℕ → Extracted → Highlight → Bool
fresh_highlight doc_id x hl =
    not (any (λ i. i == doc_id) hl.source_document_ids)
    && disjoint hl.tech_stack x.tech_stack
    && disjoint hl.urls x.urls
    && fresh_description x.description hl.description

member-append : (s : Text) (xs ys : List Text) → member s (xs ++ ys) ≡ member s xs || member s ys
unfolding member
member-append s [] ys = refl
member-append s (x ∷ xs) ys = ground (arith, member-append s xs ys)

member_self : (s : Text) (xs : List Text) → member s (s ∷ xs) ≡ true
unfolding member
member_self s xs = ground (arith, text_eq_self s)

without-disjoint : (xs ts : List Text) → disjoint xs ts ≡ true → without ts xs ≡ xs
without-disjoint [] ts h = refl
without-disjoint (x ∷ xs) ts h = ground (arith, without-disjoint xs ts)

-- Every text of `us` is in `ts`.
abbrev within : List Text → List Text → Bool
within [] ts = true
within (u ∷ us) ts = member u ts && within us ts

within-cons : (u : Text) (us ts : List Text) → within us ts ≡ true → within us (u ∷ ts) ≡ true
unfolding member
within-cons u [] ts h = refl
within-cons u (v ∷ us) ts h = ground (arith, within-cons u us ts)

within_self : (ts : List Text) → within ts ts ≡ true
within_self [] = refl
within_self (t ∷ ts) = ground (arith, member_self t ts, within-cons t ts ts (within_self ts))

without-snoc :
    (ts xs : List Text) (u : Text) → member u ts ≡ true → without ts (xs ++ u ∷ []) ≡ without ts xs
without-snoc ts xs u h =
    keep-append (λ t. not (member t ts)) xs (u ∷ []) ∙ ground (arith, h, append-nil (without ts xs))

without-add_missing :
    (ts xs us : List Text) → within us ts ≡ true → without ts (add_missing xs us) ≡ without ts xs
unfolding add_missing
without-add_missing ts xs [] h = refl
without-add_missing ts xs (u ∷ us) h =
    without-add_missing ts (if not (blank u) && not (member u xs) then xs ++ u ∷ [] else xs) us
      (ground arith)
    ∙ without_if (not (blank u) && not (member u xs))
  where
    without_if : (b : Bool) → without ts (if b then xs ++ u ∷ [] else xs) ≡ without ts xs
    without_if true = without-snoc ts xs u (ground arith)
    without_if false = refl

-- Off again
without-add_missing_same :
    (xs ts : List Text) → disjoint xs ts ≡ true → without ts (add_missing xs ts) ≡ xs
without-add_missing_same xs ts h =
    without-add_missing ts xs ts (within_self ts) ∙ without-disjoint xs ts h

member-add_missing :
    (s : Text) (xs ts : List Text) → member s xs ≡ true → member s (add_missing xs ts) ≡ true
unfolding add_missing
member-add_missing s xs [] h = h
member-add_missing s xs (t ∷ ts) h =
    member-add_missing s (if not (blank t) && not (member t xs) then xs ++ t ∷ [] else xs) ts
      (ground (arith, h, member-append s xs (t ∷ [])))

member_now :
    (t : Text) (xs : List Text)
    → blank t || member t (if not (blank t) && not (member t xs) then xs ++ t ∷ [] else xs) ≡ true
member_now t xs = ground (arith, member-append t xs (t ∷ []), member_self t [])

covers-add_missing : (xs ts : List Text) → covers (add_missing xs ts) ts ≡ true
unfolding add_missing
covers-add_missing xs [] = refl
covers-add_missing xs (t ∷ ts) = ground (
  arith,
  member_now t xs,
  member-add_missing t (if not (blank t) && not (member t xs) then xs ++ t ∷ [] else xs) ts,
  covers-add_missing (if not (blank t) && not (member t xs) then xs ++ t ∷ [] else xs) ts,
)

add_missing-covers : (xs ts : List Text) → covers xs ts ≡ true → add_missing xs ts ≡ xs
unfolding add_missing
add_missing-covers xs [] h = refl
add_missing-covers xs (t ∷ ts) h =
    ap (λ ys. add_missing ys ts) (ground arith) ∙ add_missing-covers xs ts (ground arith)

without_id-absent :
    (doc_id : ℕ) (ids : List ℕ) → any (λ i. i == doc_id) ids ≡ false → without_id doc_id ids ≡ ids
without_id-absent doc_id [] h = refl
without_id-absent doc_id (i ∷ ids) h = ground (arith, without_id-absent doc_id ids)

without_id-add_id :
    (doc_id : ℕ) (ids : List ℕ)
    → any (λ i. i == doc_id) ids ≡ false
    → without_id doc_id (add_id doc_id ids) ≡ ids
without_id-add_id doc_id ids h =
    ap (λ b. without_id doc_id (if b then ids else ids ++ doc_id ∷ [])) h
    ∙ keep-append (λ i. not (i == doc_id)) ids (doc_id ∷ [])
    ∙ ground (arith, append-nil ids, without_id-absent doc_id ids h)

any-append : (doc_id : ℕ) (ids : List ℕ) → any (λ i. i == doc_id) (ids ++ doc_id ∷ []) ≡ true
any-append doc_id [] = ground arith
any-append doc_id (i ∷ ids) = ground (arith, any-append doc_id ids)

add_id_twice : (doc_id : ℕ) (ids : List ℕ) → add_id doc_id (add_id doc_id ids) ≡ add_id doc_id ids
add_id_twice doc_id ids = ground (arith, any-append doc_id ids)

same_description_self : (s : Text) → same_description (some s) (some s) ≡ true
same_description_self s = text_eq_self s

clear-fill_description :
    (new old : Option Text)
    → fresh_description new old ≡ true
    → clear_description new (fill_description new old) ≡ old
clear-fill_description none none h = refl
clear-fill_description (some []) none h = refl
clear-fill_description (some (c ∷ s)) none h = ground (arith, text_eq_self (c ∷ s))
clear-fill_description none (some []) h = refl
clear-fill_description (some []) (some []) h = refl
clear-fill_description (some (c ∷ s)) (some []) h = ground (arith, h)
clear-fill_description none (some (d ∷ t)) h = refl
clear-fill_description (some []) (some (d ∷ t)) h = refl
clear-fill_description (some (c ∷ s)) (some (d ∷ t)) h = ground (arith, h)

clear_description-fresh :
    (new old : Option Text) → fresh_description new old ≡ true → clear_description new old ≡ old
clear_description-fresh new none h = ground arith
clear_description-fresh new (some []) h = ground (arith, h)
clear_description-fresh new (some (d ∷ t)) h = ground (arith, h)

fill_description_twice :
    (new old : Option Text)
    → fill_description new (fill_description new old) ≡ fill_description new old
fill_description_twice new old = ground arith

module _ (doc_id : ℕ) (x : Extracted) (hl : Highlight)
    (h : fresh_highlight doc_id x hl ≡ true) where
  pub impoverish-enrich : impoverish doc_id x (enrich doc_id x hl) ≡ hl
  unfolding impoverish enrich
  impoverish-enrich = λ i. record hl {
    source_document_ids = without_id-add_id doc_id hl.source_document_ids (ground (arith, h)) i;
    tech_stack = without-add_missing_same hl.tech_stack x.tech_stack (ground (arith, h)) i;
    urls = without-add_missing_same hl.urls x.urls (ground (arith, h)) i;
    description = clear-fill_description x.description hl.description (ground (arith, h)) i;
  }

  pub impoverish-fresh : impoverish doc_id x hl ≡ hl
  unfolding impoverish
  impoverish-fresh = λ i. record hl {
    source_document_ids = without_id-absent doc_id hl.source_document_ids (ground (arith, h)) i;
    tech_stack = without-disjoint hl.tech_stack x.tech_stack (ground (arith, h)) i;
    urls = without-disjoint hl.urls x.urls (ground (arith, h)) i;
    description = clear_description-fresh x.description hl.description (ground (arith, h)) i;
  }

-- Twice is once.
pub enrich_twice :
    (doc_id : ℕ) (x : Extracted) (hl : Highlight)
    → enrich doc_id x (enrich doc_id x hl) ≡ enrich doc_id x hl
unfolding enrich
enrich_twice doc_id x hl = λ i. record hl {
  source_document_ids = add_id_twice doc_id hl.source_document_ids i;
  tech_stack =
      add_missing-covers (add_missing hl.tech_stack x.tech_stack) x.tech_stack
        (covers-add_missing hl.tech_stack x.tech_stack) i;
  urls =
      add_missing-covers (add_missing hl.urls x.urls) x.urls (covers-add_missing hl.urls x.urls) i;
  description = fill_description_twice x.description hl.description i;
}
