-- ===== src/Github/Nodes/Selection.antt =====
-- agents/nodes/github_ingest.py, `node_github_ingest_and_fold`: the documents that a
-- selection leaves, adds and refreshes.
use interview_coach.Base.{
  ℕ, ◌≡◌, refl, sym, ap, subst, ◌∙◌, ◌⊎◌, inl, inr, Bool, true, false, not, ◌&&◌, Option, none,
  some, List, [], ◌∷◌, ◌++◌, All, All-if, All_weaken, All_kept, All-append, keep, any, ◌==◌,
  if◌then◌else◌, arith,
}
use interview_coach.Text.{Text, text_eq}
use interview_coach.Db.Models.{Document, github_repo}
use interview_coach.Db.Documents.{is_github_repo, deselected, gone_repo, update_where}

-- The document has one of the URLs.
abbrev pub has_url : List Text → Document → Bool
has_url urls d = elim d.source_url [ none ↦ false | some u ↦ any (λ v. text_eq u v) urls ]

-- What a refresh of a repository leaves as it is: all but the text, the title and the project
pub record Refreshes (d d' : Document) : Type 0 where
  pub id : d'.id ≡ d.id
  pub user_id : d'.user_id ≡ d.user_id
  pub kind : d'.kind ≡ d.kind
  pub source_url : d'.source_url ≡ d.source_url
  pub content_hash : d'.content_hash ≡ d.content_hash

Refreshes-trans : (a b c : Document) → Refreshes a b → Refreshes b c → Refreshes a c
Refreshes-trans a b c r s = record {
  id = s.id ∙ r.id;
  user_id = s.user_id ∙ r.user_id;
  kind = s.kind ∙ r.kind;
  source_url = s.source_url ∙ r.source_url;
  content_hash = s.content_hash ∙ r.content_hash;
}

module _ (user_id : ℕ) (selected : List Text) where
  -- No document of the user is a repository that is not selected.
  abbrev pub OnlySelected : List Document → Type 0
  OnlySelected ds = All (λ d. gone_repo user_id selected d ≡ false) ds

  abbrev pub Chosen : Text → Type 0
  Chosen url = any (λ v. text_eq url v) selected ≡ true

  -- A repository of the user with a selected URL
  pub record IsChosen (d : Document) : Type 0 where
    pub url : Text
    pub here : d.source_url ≡ some url
    pub chosen : Chosen url
    pub user : d.user_id ≡ user_id
    pub kind : d.kind ≡ github_repo

  pub OnlySelected-keep :
      (ds : List Document) → OnlySelected (keep (λ d. not (gone_repo user_id selected d)) ds)
  OnlySelected-keep ds =
      All_weaken (λ d. not (gone_repo user_id selected d) ≡ true)
        (λ d. gone_repo user_id selected d ≡ false)
        (keep (λ d. not (gone_repo user_id selected d)) ds) (λ d h. ground arith)
        (All_kept (λ d. not (gone_repo user_id selected d)) ds)

  pub OnlySelected-list :
      (ds : List Document)
      → OnlySelected ds
      → All
          (λ d. has_url selected d ≡ true)
          (keep (λ d. d.user_id == user_id && is_github_repo d.kind) ds)
  OnlySelected-list [] h = tt
  OnlySelected-list (d ∷ ds) (h, hs) =
      All-if (λ e. has_url selected e ≡ true) (d.user_id == user_id && is_github_repo d.kind) _ _
        (λ t. (url d.source_url t h, OnlySelected-list ds hs)) (λ t. OnlySelected-list ds hs)
    where
      url :
          (u : Option Text)
          → (d.user_id == user_id && is_github_repo d.kind) ≡ true
          → (d.user_id == user_id && is_github_repo d.kind && deselected selected u) ≡ false
          → (elim u [ none ↦ false | some v ↦ any (λ w. text_eq v w) selected ]) ≡ true
      url none t k = ground (arith, t, k)
      url (some v) t k = ground (arith, t, k)

  -- The document is as it was, or a repository with a selected URL that was refreshed.
  abbrev pub Same : Document → Document → Type 0
  Same d d' = (d' ≡ d) ⊎ (IsChosen d × Refreshes d d')

  -- The documents `base`, one by one and in order, and new repositories with a selected URL after
  -- them.
  abbrev pub Extends : List Document → List Document → Type 0
  Extends [] ds = All IsChosen ds
  Extends (b ∷ bs) [] = ⊥
  Extends (b ∷ bs) (d ∷ ds) = Same b d × Extends bs ds

  pub Extends-refl : (ds : List Document) → Extends ds ds
  Extends-refl [] = tt
  Extends-refl (d ∷ ds) = (inl refl, Extends-refl ds)

  pub Extends-append :
      (base ds : List Document) (d : Document)
      → IsChosen d
      → Extends base ds
      → Extends base (ds ++ d ∷ [])
  Extends-append [] ds d c h = All-append IsChosen ds (d ∷ []) h (c, tt)
  Extends-append (b ∷ bs) [] d c h = absurd h
  Extends-append (b ∷ bs) (e ∷ es) d c (s, h) = (s, Extends-append bs es d c h)

  pub IsChosen-Refreshes : (d d' : Document) → Refreshes d d' → IsChosen d → IsChosen d'
  IsChosen-Refreshes d d' r c = record {
    url = c.url;
    here = r.source_url ∙ c.here;
    chosen = c.chosen;
    user = r.user_id ∙ c.user;
    kind = r.kind ∙ c.kind;
  }

  Same-Refreshes : (b d d' : Document) → Refreshes d d' → IsChosen d → Same b d → Same b d'
  Same-Refreshes b d d' r c (inl e) = inr (subst IsChosen e c, subst (λ x. Refreshes x d') e r)
  Same-Refreshes b d d' r c (inr (k, q)) = inr (k, Refreshes-trans b d d' q r)

  module _ (hit : Document → Bool) (f : Document → Document)
      (refreshes : (d : Document) → Refreshes d (f d)) where
    abbrev pub HitsChosen : List Document → Type 0
    HitsChosen ds = All (λ d. hit d ≡ true → IsChosen d) ds

    updated-IsChosen :
        (d : Document) (b : Bool)
        → (b ≡ true → IsChosen d)
        → IsChosen d
        → IsChosen (if b then f d else d)
    updated-IsChosen d true h c = IsChosen-Refreshes d (f d) (refreshes d) c
    updated-IsChosen d false h c = c

    updated-Same :
        (a d : Document) (b : Bool)
        → (b ≡ true → IsChosen d)
        → Same a d
        → Same a (if b then f d else d)
    updated-Same a d true h s = Same-Refreshes a d (f d) (refreshes d) (h refl) s
    updated-Same a d false h s = s

    pub Extends-update :
        (base ds : List Document)
        → HitsChosen ds
        → Extends base ds
        → Extends base (update_where hit f ds)
    Extends-update [] [] h e = tt
    Extends-update [] (d ∷ ds) (h, hs) (c, cs) =
        (updated-IsChosen d (hit d) h c, Extends-update [] ds hs cs)
    Extends-update (b ∷ bs) [] h e = absurd e
    Extends-update (b ∷ bs) (d ∷ ds) (h, hs) (s, e) =
        (updated-Same b d (hit d) h s, Extends-update bs ds hs e)

  IsChosen-gone : (d : Document) → IsChosen d → gone_repo user_id selected d ≡ false
  IsChosen-gone d a =
      subst (λ u. (d.user_id == user_id && is_github_repo d.kind && deselected selected u) ≡ false)
        (sym a.here) (ground (arith, a.chosen))

  Same-gone :
      (b d : Document)
      → gone_repo user_id selected b ≡ false
      → Same b d
      → gone_repo user_id selected d ≡ false
  Same-gone b d g (inl e) = ap (gone_repo user_id selected) e ∙ g
  Same-gone b d g (inr (c, r)) = IsChosen-gone d (IsChosen-Refreshes b d r c)

  pub Extends-OnlySelected :
      (base ds : List Document) → OnlySelected base → Extends base ds → OnlySelected ds
  Extends-OnlySelected [] ds c h =
      All_weaken IsChosen (λ d. gone_repo user_id selected d ≡ false) ds IsChosen-gone h
  Extends-OnlySelected (b ∷ bs) [] c h = absurd h
  Extends-OnlySelected (b ∷ bs) (d ∷ ds) (g, gs) (s, h) =
      (Same-gone b d g s, Extends-OnlySelected bs ds gs h)
