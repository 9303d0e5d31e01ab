-- ===== src/Keys.antt =====
-- Keys: the authorized keys of an agent's login user, internal/ssh/keys.go. A file is its lines;
-- strings.Fields, strings.Contains, strings.Split at ":", strconv.ParseInt and the two texts that
-- fmt.Sprintf and `+` make are arguments.
mod Lines
mod Tests
use text.Mathlib.Text.{starts_with}
use silent_devops.Prelude.{
  ℕ, String, Bool, true, false, not, ◌&&◌, ◌||◌, Option, none, some, List, [], ◌∷◌, ◌++◌, str_eq,
  ltb, if◌then◌else◌, select, Result, ok, err,
}

pub data KeyError : Type 0 where
  session_required key_invalid path_required unreadable unwritable : KeyError

-- A number that strconv.ParseInt reads: whether it is negative, and its size.
abbrev pub ExpiryRead : Type 0
ExpiryRead = Bool × ℕ

pub record Texts : Type 0 where
  pub fields : String → List String
  pub contains : String → String → Bool
  pub parts : String → List String
  pub parse_int : String → Option ExpiryRead
  -- "silent-devops:" + id + ":"
  pub needle : String → String
  -- the line of a key: its type, its body, the session and the expiry in seconds
  pub key_line : String → String → String → ℕ → String

-- What the file system does: no file is an empty list of lines; a failure to write leaves the file.
pub record FileLuck : Type 0 where
  pub path_given : Bool
  pub read_fails : Bool
  pub write_fails : Bool

-- `update`, with `atomicWrite`
unfoldable pub update_file :
    FileLuck → (List String → List String) → List String → Result KeyError (Unit {0}) × List String
update_file luck change lines =
    if not luck.path_given
    then (err path_required, lines)
    else if luck.read_fails
    then (err unreadable, lines)
    else if luck.write_fails
    then (err unwritable, lines)
    else (ok tt, change lines)

module _ (x : Texts) where
  abbrev pub is_of : String → String → Bool
  is_of id line = x.contains line (x.needle id)

  -- `removeSession`
  unfoldable pub remove_session : String → List String → List String
  remove_session id lines = select (λ line. not (is_of id line)) lines

  -- `marker`
  unfoldable pub marker_in : List String → String
  marker_in [] = ""
  marker_in (field ∷ more) =
      let rest = marker_in more in if starts_with field "silent-devops:" then field else rest

  -- What `Reconcile` asks of the parts of a marker; a negative expiry is over.
  abbrev pub still_valid : ℕ → List String → Bool
  still_valid now (tag ∷ session ∷ expiry ∷ []) = elim (x.parse_int expiry) [
    | none ↦ false
    | some (negative, size) ↦ not negative && ltb now size
  ]
  still_valid now _ = false

  abbrev pub is_kept : ℕ → String → Bool
  is_kept now line =
      let marker = marker_in (x.fields line) in
      if str_eq marker "" then true else still_valid now (x.parts marker)

  abbrev pub is_key : String → Bool
  is_key kind = starts_with kind "ssh-"

  abbrev pub install_key :
      FileLuck → String → ℕ → List String → List String → Result KeyError (Unit {0}) × List String
  install_key luck id expires (kind ∷ body ∷ comment) lines =
      if is_key kind
      then update_file luck
          (λ before. remove_session id before ++ x.key_line kind body id expires ∷ []) lines
      else (err key_invalid, lines)
  install_key luck id expires _ lines = (err key_invalid, lines)

  -- `Install`; `dated` is that the expiry is not the zero time, and `expires` is in seconds.
  unfoldable pub install :
      FileLuck → String → String → Bool → ℕ → List String → Result KeyError (Unit {0}) × List String
  install luck id key dated expires lines =
      if str_eq id "" || not dated
      then (err session_required, lines)
      else install_key luck id expires (x.fields key) lines

  -- `Remove`
  unfoldable pub remove_key :
      FileLuck → String → List String → Result KeyError (Unit {0}) × List String
  remove_key luck id lines = update_file luck (remove_session id) lines

  -- `Reconcile`, at a time in seconds
  unfoldable pub reconcile_keys :
      FileLuck → ℕ → List String → Result KeyError (Unit {0}) × List String
  reconcile_keys luck now lines = update_file luck (select (is_kept now)) lines
