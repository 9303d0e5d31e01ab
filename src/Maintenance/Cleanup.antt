-- ===== src/Maintenance/Cleanup.antt =====
-- `ValidatePath` and `CleanupManager` of internal/maintenance/maintenance.go. path/filepath, SHA-256 of
-- the joined paths, and os.RemoveAll are arguments: `relative root path` is filepath.Rel, and `removes`
-- says whether a removal succeeds.
use text.Mathlib.Text.{starts_with}
use silent_devops.Prelude.{
  ℕ, ◌+◌, String, Bool, false, not, ◌&&◌, Option, none, some, List, [], ◌∷◌, str_eq, ltb, ◌==◌,
  if◌then◌else◌, length, exists, bytes_eq, Result, ok, err, ◌>>=◌, ◌>>◌, fail_if, or_fail,
}
use silent_devops.Prelude.Dict.{lookup, remove, insert}

pub data CleanupError : Type 0 where
  no_absolute outside_allowlist paths_required invalid_preview removal_failed : CleanupError

-- `ValidatePath`
abbrev pub is_inside : Option String → Bool
is_inside none = false
is_inside (some rel) = not (str_eq rel "..") && not (starts_with rel "../")

module _ (absolute : String → Option String) (clean : String → String)
    (relative : String → String → Option String) (sha256 : List String → List ℕ) where
  abbrev pub root_allows : String → String → Bool
  root_allows path root = elim (absolute root) [
    | none ↦ false
    | some r ↦ is_inside (relative (clean r) path)
  ]

  unfoldable pub validate_path : List String → String → Result CleanupError String
  validate_path allowed path = do
    full ← or_fail (absolute path) no_absolute
    fail_if (not (exists (root_allows (clean full)) allowed)) outside_allowlist
    ok (clean full)

  unfoldable pub validate_all : List String → List String → Result CleanupError (List String)
  validate_all allowed [] = ok []
  validate_all allowed (path ∷ paths) = do
    first ← validate_path allowed path
    rest ← validate_all allowed paths
    ok (first ∷ rest)

  pub record Preview : Type 0 where
    pub id : String
    pub hash : List ℕ
    pub expires : ℕ
    pub paths : List String

  pub record CleanupManager : Type 0 where
    pub allowed : List String
    pub ttl : ℕ
    pub previews : List (String × Preview)

  -- `Preview`, with the identifier that crypto/rand draws.
  unfoldable pub preview :
      CleanupManager → String → List String → ℕ → Result CleanupError Preview × CleanupManager
  preview m id paths now =
      if length paths == 0 then (err paths_required, m) else elim (validate_all m.allowed paths) [
        | err why ↦ (err why, m)
        | ok checked ↦
            let p : Preview = record {
              id = id;
              hash = sha256 checked;
              expires = now + m.ttl;
              paths = checked;
            } in
            (ok p, record m { previews = insert m.previews id p })
      ]

  -- The loop of `Execute`: the paths that are removed before it ends.
  unfoldable pub remove_paths :
      List String → (String → Bool) → List String → Result CleanupError (Unit {0}) × List String
  remove_paths allowed removes [] = (ok tt, [])
  remove_paths allowed removes (path ∷ paths) =
      let rest = remove_paths allowed removes paths in
      elim (validate_path allowed path) [
        | err why ↦ (err why, [])
        | ok checked ↦ if removes path then (rest.0, path ∷ rest.1) else (err removal_failed, [])
      ]

  abbrev pub serves : List ℕ → ℕ → Preview → Bool
  serves hash now p = not (ltb p.expires now) && bytes_eq hash p.hash

  -- `Execute`: a preview is gone with the first call that names it.
  unfoldable pub execute :
      CleanupManager
      → String
      → List ℕ
      → ℕ
      → (String → Bool)
      → (Result CleanupError (Unit {0}) × List String) × CleanupManager
  execute m id hash now removes = elim (lookup m.previews id) [
    | none ↦ ((err invalid_preview, []), m)
    | some p ↦ (
      if serves hash now p
          then remove_paths m.allowed removes p.paths
          else (err invalid_preview, []),
      record m { previews = remove m.previews id },
    )
  ]
