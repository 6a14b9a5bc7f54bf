-- ===== src/Github.antt =====
-- ingestion/github_repo.py: what is read of a repository, from its tree of files. `lower` is
-- Python's `str.lower`, with its table of Unicode.
pub mod Picked
pub mod Ingest
pub mod Layout
pub mod Nodes
use interview_coach.Base.{
  ℕ, zero, suc, ◌+◌, ◌-◌, Bool, true, false, not, ◌&&◌, ◌||◌, Option, none, some, String, List, [],
  ◌∷◌, ◌++◌, map, keep, any, take, drop, length, ltb, leb, ◌==◌, if◌then◌else◌,
}
use interview_coach.Text.{Text, codes, text_eq, member}

-- `TreeEntry` of the GitHub client
pub data EntryKind : Type 0 where
  blob tree other_kind : EntryKind

pub record TreeEntry : Type 0 where
  pub path : Text
  pub kind : EntryKind
  pub size : ℕ

abbrev pub is_blob : EntryKind → Bool
is_blob blob = true
is_blob tree = false
is_blob other_kind = false

abbrev pub is_tree : EntryKind → Bool
is_tree blob = false
is_tree tree = true
is_tree other_kind = false

-- `/` and `.`
abbrev pub slash : ℕ
slash = 47

abbrev pub dot : ℕ
dot = 46

-- `path.split("/")`: the first part, and the parts after it.
abbrev pub parts : Text → Text × List Text
parts [] = ([], [])
parts (c ∷ s) = let r = parts s in if c == slash then ([], r.0 ∷ r.1) else (c ∷ r.0, r.1)

-- `path.count("/")`
abbrev pub depth : Text → ℕ
depth [] = 0
depth (c ∷ s) = let rest = depth s in if c == slash then suc rest else rest

abbrev pub last_part : Text → List Text → Text
last_part p [] = p
last_part p (q ∷ qs) = last_part q qs

-- `_basename`
unfoldable pub basename : Text → Text
basename path = last_part (parts path).0 (parts path).1

abbrev pub starts_with : Text → Text → Bool
starts_with [] s = true
starts_with (c ∷ p) [] = false
starts_with (c ∷ p) (d ∷ s) = c == d && starts_with p s

-- `p in s`
abbrev pub occurs : Text → Text → Bool
occurs p [] = starts_with p []
occurs p (c ∷ s) = starts_with p (c ∷ s) || occurs p s

abbrev pub ends_with : Text → Text → Bool
ends_with p s = text_eq p (drop (length s - length p) s)

-- `s[s.rfind("."):] if "." in s else ""`
abbrev pub suffix_from_dot : Text → Text
suffix_from_dot [] = []
suffix_from_dot (c ∷ s) =
    let rest = suffix_from_dot s in
    elim rest [ [] ↦ if c == dot then c ∷ s else [] | d ∷ r ↦ d ∷ r ]

abbrev pub words : List String → List Text
words ss = map codes ss

-- `_EXCLUDE_DIR_PARTS`, `_TEST_DIR_PARTS`, `_MANIFEST_FILES`, `_DOCKERFILES` and `_SOURCE_EXTS`
abbrev pub exclude_dir_parts : List Text
exclude_dir_parts = words (
    "node_modules" ∷ "vendor" ∷ "dist" ∷ "build" ∷ "venv" ∷ ".venv" ∷ "__pycache__" ∷ ".git"
    ∷ "target" ∷ "bin" ∷ "obj" ∷ ".next" ∷ ".nuxt" ∷ "coverage" ∷ ".idea" ∷ ".vscode"
    ∷ "third_party" ∷ "external" ∷ "deps" ∷ "site-packages" ∷ "bower_components" ∷ ".tox" ∷ "out"
    ∷ ".cache" ∷ "generated" ∷ "gen" ∷ [])

abbrev pub test_dir_parts : List Text
test_dir_parts = words ("test" ∷ "tests" ∷ "spec" ∷ "specs" ∷ "__tests__" ∷ "e2e" ∷ "mocks" ∷ [])

abbrev pub manifest_files : List Text
manifest_files = words (
    "pyproject.toml" ∷ "setup.py" ∷ "setup.cfg" ∷ "requirements.txt" ∷ "pipfile" ∷ "package.json"
    ∷ "go.mod" ∷ "cargo.toml" ∷ "pom.xml" ∷ "build.gradle" ∷ "build.gradle.kts" ∷ "gemfile"
    ∷ "composer.json" ∷ "environment.yml" ∷ [])

abbrev pub docker_files : List Text
docker_files = words (
    "dockerfile" ∷ "docker-compose.yml" ∷ "docker-compose.yaml" ∷ "compose.yaml" ∷ "compose.yml"
    ∷ [])

abbrev pub source_exts : List Text
source_exts = words (
    ".py" ∷ ".js" ∷ ".jsx" ∷ ".ts" ∷ ".tsx" ∷ ".go" ∷ ".rs" ∷ ".java" ∷ ".kt" ∷ ".rb" ∷ ".php"
    ∷ ".c" ∷ ".h" ∷ ".cpp" ∷ ".hpp" ∷ ".cc" ∷ ".cs" ∷ ".swift" ∷ ".scala" ∷ ".sql" ∷ ".sh" ∷ ".vue"
    ∷ ".svelte" ∷ [])

-- `sorted(xs, key=…)`, which is stable, by the order of the keys
module _ {A : Type 0} (before : A → A → Bool) where
  unfoldable pub insert_sorted : A → List A → List A
  insert_sorted a [] = a ∷ []
  insert_sorted a (b ∷ bs) =
      let rest = insert_sorted a bs in if before b a then b ∷ rest else a ∷ b ∷ bs

  unfoldable pub sorted : List A → List A
  unfolding insert_sorted
  sorted [] = []
  sorted (a ∷ as') = insert_sorted a (sorted as')

-- `<` of two texts
abbrev pub text_before : Text → Text → Bool
text_before [] [] = false
text_before [] (d ∷ t) = true
text_before (c ∷ s) [] = false
text_before (c ∷ s) (d ∷ t) = ltb c d || c == d && text_before s t

-- The greedy pack: at most `n` more files, `total` bytes taken.
unfoldable pub pack : ℕ → ℕ → List TreeEntry → List TreeEntry
pack zero total es = []
pack (suc n) total [] = []
pack (suc n) total (e ∷ es) = elim (ltb 300000 (total + e.size)) [
  | true ↦ pack (suc n) total es
  | false ↦ e ∷ pack n (total + e.size) es
]

module _ (lower : Text → Text) where
  unfoldable pub ext : Text → Text
  unfolding basename
  ext path = suffix_from_dot (lower (basename path))

  unfoldable pub is_excluded : Text → Bool
  unfolding basename member
  is_excluded path =
      let all_parts = (parts path).0 ∷ (parts path).1 in
      let base = lower (basename path) in
      any (λ p. member (lower p) exclude_dir_parts) all_parts
      || any (λ p. member (lower p) test_dir_parts) all_parts
      || starts_with (codes "test_") base
      || starts_with (codes "test.") base
      || occurs (codes ".test.") base
      || occurs (codes ".spec.") base
      || occurs (codes "_test.") base
      || ends_with (codes ".d.ts") base
      || ends_with (codes ".min.js") base
      || ends_with (codes ".min.css") base

  abbrev pub is_readme : Text → Bool
  is_readme path = starts_with (codes "readme") (lower (basename path))

  abbrev pub is_manifest : Text → Bool
  is_manifest path = member (lower (basename path)) manifest_files

  abbrev pub is_docker : Text → Bool
  is_docker path =
      let base = lower (basename path) in
      member base docker_files || starts_with (codes "dockerfile") base

  -- `(p.count("/"), len(p))`
  abbrev pub shallower : Text → Text → Bool
  shallower p q = ltb (depth p) (depth q) || depth p == depth q && ltb (length p) (length q)

  pub record Categories : Type 0 where
    pub readme : List Text
    pub manifests : List Text
    pub dockerfiles : List Text

  abbrev pub eligible_paths : List TreeEntry → List Text
  eligible_paths entries =
      map (λ e. e.path) (keep (λ e. is_blob e.kind && not (is_excluded e.path)) entries)

  unfoldable pub categorize_paths : List TreeEntry → Categories
  unfolding is_excluded sorted
  categorize_paths entries =
      let paths = eligible_paths entries in
      record {
        readme = take 1 (sorted shallower (keep is_readme paths));
        manifests =
            take 2 (sorted shallower (keep (λ p. not (is_readme p) && is_manifest p) paths));
        dockerfiles = take 2 (
            sorted shallower
              (keep (λ p. not (is_readme p) && not (is_manifest p) && is_docker p) paths));
      }

  -- The candidates of `select_source_files`
  unfoldable pub is_candidate : TreeEntry → Bool
  unfolding is_excluded ext
  is_candidate e =
      is_blob e.kind
      && not (is_excluded e.path)
      && not (is_readme e.path)
      && not (is_manifest e.path)
      && not (is_docker e.path)
      && member (ext e.path) source_exts
      && ltb 0 e.size
      && leb e.size 50000

  -- `counts[_ext(e.path)]`
  unfoldable pub count_ext : Text → List TreeEntry → ℕ
  count_ext x [] = 0
  count_ext x (e ∷ es) =
      let rest = count_ext x es in if text_eq (ext e.path) x then suc rest else rest

  -- `(-counts[…], e.path.count("/"), -e.size)`
  unfoldable pub ranks_before : List TreeEntry → TreeEntry → TreeEntry → Bool
  unfolding count_ext ext
  ranks_before cands a b =
      let m = count_ext (ext a.path) cands in
      let n = count_ext (ext b.path) cands in
      ltb n m
      || m == n && ltb (depth a.path) (depth b.path)
      || m == n && depth a.path == depth b.path && ltb b.size a.size

  unfoldable pub selected_entries : List TreeEntry → List TreeEntry
  unfolding pack sorted ranks_before is_candidate
  selected_entries entries =
      let cands = keep is_candidate entries in pack 10 0 (sorted (ranks_before cands) cands)

  unfoldable pub select_source_files : List TreeEntry → List Text
  unfolding selected_entries
  select_source_files entries = map (λ e. e.path) (selected_entries entries)
