-- ===== src/Github/Layout.antt =====
-- ingestion/github_repo.py: the layout of the tree and the texts that are put together from a
-- repository.
use interview_coach.Base.{
  ℕ, zero, suc, ◌≡◌, ap, ◌∙◌, Bool, true, false, not, ◌&&◌, Option, none, some, List, [], ◌∷◌, ◌++◌,
  map, keep, take, length, leb, if◌then◌else◌, arith,
}
use interview_coach.Text.{Text, codes}
use interview_coach.Github.{
  TreeEntry, is_tree, depth, basename, is_excluded, sorted, text_before, categorize_paths,
  select_source_files,
}

-- `sep.join(parts)`
abbrev pub join_with : Text → List Text → Text
join_with sep [] = []
join_with sep (t ∷ []) = t
join_with sep (t ∷ u ∷ ts) = t ++ sep ++ join_with sep (u ∷ ts)

abbrev pub is_empty : Text → Bool
is_empty [] = true
is_empty (c ∷ s) = false

-- `"  " * depth`
abbrev pub indent : ℕ → Text
indent zero = []
indent (suc n) = 32 ∷ 32 ∷ indent n

abbrev pub ellipsis_line : Text
ellipsis_line = 32 ∷ 32 ∷ 8230 ∷ []

module _ (lower : Text → Text) where
  abbrev pub is_listed : TreeEntry → Bool
  is_listed e = not (is_empty e.path) && not (is_excluded lower e.path) && leb (depth e.path) 2

  abbrev pub tree_line : TreeEntry → Text
  tree_line e =
      indent (depth e.path) ++ basename e.path ++ (if is_tree e.kind then codes "/" else [])

  -- The loop, with room for `n` more lines before it is broken off.
  unfoldable pub tree_lines : ℕ → List TreeEntry → List Text
  tree_lines zero es = ellipsis_line ∷ []
  tree_lines (suc n) [] = []
  tree_lines (suc n) (e ∷ es) = elim (is_listed e) [
    | true ↦ tree_line e ∷ tree_lines n es
    | false ↦ tree_lines (suc n) es
  ]

  unfoldable pub directory_lines : List TreeEntry → List Text
  unfolding tree_lines sorted
  directory_lines entries = tree_lines 40 (sorted (λ a b. text_before a.path b.path) entries)

  unfoldable pub directory_structure : List TreeEntry → Text
  unfolding directory_lines
  directory_structure entries = join_with (10 ∷ []) (directory_lines entries)

  -- The lines of the listed entries
  abbrev pub listed_lines : List TreeEntry → List Text
  listed_lines es = map tree_line (keep is_listed es)

  tree_lines-take :
      (n : ℕ) (es : List TreeEntry)
      → tree_lines n es
        ≡ take n (listed_lines es)
          ++ (if leb n (length (listed_lines es)) then ellipsis_line ∷ [] else [])
  unfolding tree_lines
  tree_lines-take zero es = ground arith
  tree_lines-take (suc n) [] = ground arith
  tree_lines-take (suc n) (e ∷ es) =
      by_test (is_listed e) (tree_lines-take n es) (tree_lines-take (suc n) es)
    where
      by_test :
          (b : Bool)
          → tree_lines n es
            ≡ take n (listed_lines es)
              ++ (if leb n (length (listed_lines es)) then ellipsis_line ∷ [] else [])
          → tree_lines (suc n) es
            ≡ take (suc n) (listed_lines es)
              ++ (if leb (suc n) (length (listed_lines es)) then ellipsis_line ∷ [] else [])
          → (elim b [ true ↦ tree_line e ∷ tree_lines n es | false ↦ tree_lines (suc n) es ])
            ≡ take (suc n) (map tree_line (if b then e ∷ keep is_listed es else keep is_listed es))
              ++ (if leb (suc n) (
                    length (map tree_line (if b then e ∷ keep is_listed es else keep is_listed es)))
                  then ellipsis_line ∷ []
                  else [])
      by_test true h k = ap (λ ls. tree_line e ∷ ls) h ∙ ground arith
      by_test false h k = k

  -- The layout is the first 40 lines of the tree's entries that are listed, in the order of their
  -- paths, and after them the ellipsis, if there are 40 or more.
  pub directory_lines-take :
      (entries : List TreeEntry)
      → directory_lines entries
        ≡ take 40 (listed_lines (sorted (λ a b. text_before a.path b.path) entries))
          ++ (if leb 40 (length (listed_lines (sorted (λ a b. text_before a.path b.path) entries)))
              then ellipsis_line ∷ []
              else [])
  unfolding directory_lines
  directory_lines-take entries =
      tree_lines-take 40 (sorted (λ a b. text_before a.path b.path) entries)

-- A file that was read: its path and its text.
abbrev pub File : Type 0
File = Text × Text

abbrev pub headed : Text → Text → Text
headed header text = header ++ 10 ∷ text

-- A section, unless its content is missing or empty
abbrev pub section : Text → Option Text → List Text
section header none = []
section header (some []) = []
section header (some (c ∷ s)) = headed header (c ∷ s) ∷ []

-- `_assemble_repo_text`
unfoldable pub assemble_repo_text :
    Text → Option Text → Option Text → List File → List File → Text → Text
assemble_repo_text full_name description readme manifests dockerfiles tree =
    join_with (10 ∷ 10 ∷ []) (
      (codes "# Repository: " ++ full_name) ∷ section (codes "# Description") description
      ++ map (λ f. headed (codes "# Manifest: " ++ f.0) (take 2200 f.1)) manifests
      ++ map (λ f. headed (codes "# " ++ f.0) (take 2200 f.1)) dockerfiles
      ++ section (codes "# Directory structure") (some tree)
      ++ (elim readme [
        | none ↦ []
        | some t ↦ if is_empty t then [] else headed (codes "# README") (take 4500 t) ∷ []
      ]))

-- `CODE_FENCE_PREFIX` of rag/chunking.py
abbrev pub code_fence_prefix : Text
code_fence_prefix = codes "[CODE-FILE] "

-- `_assemble_grounding_text`
unfoldable pub assemble_grounding_text : Text → List File → Text
assemble_grounding_text extract_text [] = extract_text
assemble_grounding_text extract_text (f ∷ fs) =
    join_with (10 ∷ 10 ∷ [])
      (extract_text ∷ map (λ g. headed (code_fence_prefix ++ g.0) (take 8000 g.1)) (f ∷ fs))

-- `[m for p in paths if (m := await _grab(p))]`; a blob that is not fetched is `none`.
abbrev pub grab_all : (Text → Option Text) → List Text → List File
grab_all fetch [] = []
grab_all fetch (p ∷ ps) =
    let rest = grab_all fetch ps in elim (fetch p) [ none ↦ rest | some t ↦ (p, t) ∷ rest ]

abbrev pub first_text : (Text → Option Text) → List Text → Option Text
first_text fetch [] = none
first_text fetch (p ∷ ps) = fetch p

-- `_fetch_repo_text` after the tree was read: the text to extract from, and the text to ground on.
unfoldable pub repo_texts :
    (Text → Text) → Bool → Text → Option Text → (Text → Option Text) → List TreeEntry → Text × Text
unfolding categorize_paths select_source_files directory_structure assemble_repo_text
    assemble_grounding_text
repo_texts lower has_token full_name description fetch entries =
    let cats = categorize_paths lower entries in
    let extract_text =
      assemble_repo_text full_name description (first_text fetch cats.readme)
        (grab_all fetch cats.manifests) (grab_all fetch cats.dockerfiles)
        (directory_structure lower entries) in
    let code_paths = if has_token then select_source_files lower entries else [] in
    (extract_text, assemble_grounding_text extract_text (grab_all fetch code_paths))
