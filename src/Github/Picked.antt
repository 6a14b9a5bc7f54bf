-- ===== src/Github/Picked.antt =====
-- ingestion/github_repo.py, `select_source_files`: the budget of the source files, and what is left
-- out of them.
use interview_coach.Base.{
  ℕ, zero, suc, ◌+◌, ◌≤◌, ◌<◌, ◌≡◌, ◌⊎◌, inl, inr, refl, Bool, true, false, List, [], ◌∷◌, All,
  All-if, All-keep, All_weaken, All_kept, map, keep, length, ltb, if◌then◌else◌, arith,
}
use interview_coach.Text.{Text}
use interview_coach.Github.{
  TreeEntry, insert_sorted, sorted, is_candidate, ranks_before, pack, selected_entries,
  select_source_files,
}

-- The bytes of the entries
abbrev pub total_size : List TreeEntry → ℕ
total_size [] = 0
total_size (e ∷ es) = e.size + total_size es

module _ {A : Type 0} (P : A → Type 0) where
  module _ (before : A → A → Bool) where
    All-insert_sorted : (a : A) (bs : List A) → P a → All P bs → All P (insert_sorted before a bs)
    unfolding insert_sorted
    All-insert_sorted a [] h k = (h, tt)
    All-insert_sorted a (b ∷ bs) h (k, ks) =
        All-if P (before b a) _ _ (λ t. (k, All-insert_sorted a bs h ks)) (λ t. (h, (k, ks)))

    All-sorted : (as' : List A) → All P as' → All P (sorted before as')
    unfolding sorted
    All-sorted [] h = tt
    All-sorted (a ∷ as') (h, hs) = All-insert_sorted a (sorted before as') h (All-sorted as' hs)

-- `e` is one of the entries.
abbrev pub Among : TreeEntry → List TreeEntry → Type 0
Among e [] = ⊥
Among e (x ∷ xs) = (e ≡ x) ⊎ Among e xs

Among-self : (es : List TreeEntry) → All (λ e. Among e es) es
Among-self [] = tt
Among-self (e ∷ es) = (
  inl refl,
  All_weaken (λ x. Among x es) (λ x. Among x (e ∷ es)) es (λ x h. inr h) (Among-self es),
)

-- An entry is chosen, or no more files may be, or it exceeds the bytes that are left.
abbrev pub Settled : ℕ → ℕ → List TreeEntry → TreeEntry → Type 0
Settled n total chosen e =
    Among e chosen ⊎ ((length chosen ≡ n) ⊎ (300000 < total + total_size chosen + e.size))

-- What the pack has chosen from `es`, with `n` more files and `total` bytes taken.
pub record Packed (n total : ℕ) (es chosen : List TreeEntry) : Type 0 where
  pub count : length chosen ≤ n
  pub bytes : total + total_size chosen ≤ 300000
  pub settled : All (Settled n total chosen) es

All_any : {A : Type 0} (P : A → Type 0) (xs : List A) → ((x : A) → P x) → All P xs
All_any P [] f = tt
All_any P (x ∷ xs) f = (f x, All_any P xs f)

pack_skip :
    (n total : ℕ) (e : TreeEntry) (es chosen : List TreeEntry)
    → 300000 < total + e.size
    → Packed n total es chosen
    → Packed n total (e ∷ es) chosen
pack_skip n total e es chosen h p = record {
  count = p.count;
  bytes = p.bytes;
  settled = (inr (inr (omega (arith, h))), p.settled);
}

settled_later :
    (n total : ℕ) (e : TreeEntry) (chosen : List TreeEntry) (x : TreeEntry)
    → Settled n (total + e.size) chosen x
    → Settled (suc n) total (e ∷ chosen) x
settled_later n total e chosen x (inl h) = inl (inr h)
settled_later n total e chosen x (inr (inl h)) = inr (inl (omega (arith, h)))
settled_later n total e chosen x (inr (inr h)) = inr (inr (omega (arith, h)))

pack_take :
    (n total : ℕ) (e : TreeEntry) (es chosen : List TreeEntry)
    → Packed n (total + e.size) es chosen
    → Packed (suc n) total (e ∷ es) (e ∷ chosen)
pack_take n total e es chosen p = record {
  count = omega (arith, p.count);
  bytes = omega (arith, p.bytes);
  settled = (
    inl (inl refl),
    All_weaken (Settled n (total + e.size) chosen) (Settled (suc n) total (e ∷ chosen)) es
        (settled_later n total e chosen) p.settled,
  );
}

pack-Packed :
    (n total : ℕ) (es : List TreeEntry) → total ≤ 300000 → Packed n total es (pack n total es)
unfolding pack
pack-Packed zero total es h = record {
  count = omega arith;
  bytes = omega (arith, h);
  settled = All_any _ es (λ e. inr (inl refl));
}
pack-Packed (suc n) total [] h = record {
  count = omega arith;
  bytes = omega (arith, h);
  settled = tt;
}
pack-Packed (suc n) total (e ∷ es) h =
    by_budget (ltb 300000 (total + e.size)) refl (pack-Packed (suc n) total es h)
      (λ k. pack-Packed n (total + e.size) es k)
  where
    by_budget :
        (b : Bool)
        → ltb 300000 (total + e.size) ≡ b
        → Packed (suc n) total es (pack (suc n) total es)
        → (total + e.size ≤ 300000 → Packed n (total + e.size) es (pack n (total + e.size) es))
        → Packed
            (suc n)
            total
            (e ∷ es)
            (elim b [ true ↦ pack (suc n) total es | false ↦ e ∷ pack n (total + e.size) es ])
    by_budget true t skipped taken = pack_skip (suc n) total e es _ (ground (arith, t)) skipped
    by_budget false t skipped taken = pack_take n total e es _ (taken (ground (arith, t)))

All-pack :
    (P : TreeEntry → Type 0) (n total : ℕ) (es : List TreeEntry)
    → All P es
    → All P (pack n total es)
unfolding pack
All-pack P zero total es h = tt
All-pack P (suc n) total [] h = tt
All-pack P (suc n) total (e ∷ es) (h, hs) =
    by_budget (ltb 300000 (total + e.size)) (All-pack P (suc n) total es hs)
      (All-pack P n (total + e.size) es hs)
  where
    by_budget :
        (b : Bool)
        → All P (pack (suc n) total es)
        → All P (pack n (total + e.size) es)
        → All P (elim b [ true ↦ pack (suc n) total es | false ↦ e ∷ pack n (total + e.size) es ])
    by_budget true s t = s
    by_budget false s t = (h, t)

if_back :
    {A : Type 0} (P : A → Type 0) (R : Type 0) (b : Bool) (xs ys : List A)
    → (All P xs → R)
    → (All P ys → R)
    → All P (if b then xs else ys)
    → R
if_back P R true xs ys f g h = f h
if_back P R false xs ys f g h = g h

module _ (P : TreeEntry → Type 0) (before : TreeEntry → TreeEntry → Bool) where
  All-insert_sorted_back :
      (a : TreeEntry) (bs : List TreeEntry) → All P (insert_sorted before a bs) → P a × All P bs
  unfolding insert_sorted
  All-insert_sorted_back a [] k = k
  All-insert_sorted_back a (b ∷ bs) k =
      if_back P (P a × (P b × All P bs)) (before b a) _ _
        (λ (h, hs). let r = All-insert_sorted_back a bs hs in (r.0, (h, r.1))) (λ h. h) k

  All-sorted_back : (es : List TreeEntry) → All P (sorted before es) → All P es
  unfolding sorted
  All-sorted_back [] h = tt
  All-sorted_back (e ∷ es) h =
      let r = All-insert_sorted_back e (sorted before es) h in (r.0, All-sorted_back es r.1)

-- What `select_source_files` has selected of the entries.
pub record Selected (lower : Text → Text) (entries : List TreeEntry) (paths : List Text)
    : Type 0 where
  pub chosen : List TreeEntry
  pub of_chosen : paths ≡ map (λ e. e.path) chosen
  pub from_entries : All (λ e. Among e entries) chosen
  pub candidates : All (λ e. is_candidate lower e ≡ true) chosen
  pub count : length chosen ≤ 10
  pub bytes : total_size chosen ≤ 300000
  pub settled : All (Settled 10 0 chosen) (keep (is_candidate lower) entries)

-- The selected paths are those of at most ten entries of the tree with at most 300000 bytes
-- altogether; each is a file of an allowed extension, neither excluded nor a readme, a manifest or a
-- Dockerfile, and has 1 to 50000 bytes; and a candidate is left out only if ten are selected or it
-- would exceed the bytes.
pub select_source_files-Selected :
    (lower : Text → Text) (entries : List TreeEntry)
    → Selected lower entries (select_source_files lower entries)
unfolding select_source_files selected_entries
select_source_files-Selected lower entries =
    let cands = keep (is_candidate lower) entries in
    let ranked = sorted (ranks_before lower cands) cands in
    let packed = pack-Packed 10 0 ranked (omega arith) in
    record {
      chosen = selected_entries lower entries;
      of_chosen = refl;
      from_entries =
          All-pack (λ e. Among e entries) 10 0 ranked
            (All-sorted (λ e. Among e entries) (ranks_before lower cands) cands
              (All-keep (λ e. Among e entries) (is_candidate lower) entries (Among-self entries)));
      candidates =
          All-pack (λ e. is_candidate lower e ≡ true) 10 0 ranked
            (All-sorted (λ e. is_candidate lower e ≡ true) (ranks_before lower cands) cands
              (All_kept (is_candidate lower) entries));
      count = packed.count;
      bytes = omega (arith, packed.bytes);
      settled =
          All-sorted_back (Settled 10 0 (pack 10 0 ranked)) (ranks_before lower cands) cands
            packed.settled;
    }
