-- ===== src/Maintenance.antt =====
-- Maintenance: what an agent does with a job, in internal/maintenance: the checks of units and limits
-- (maintenance.go, operations.go), the runner of commands, and the dispatcher.
pub mod Runner
pub mod Dispatch
pub mod Confirm
pub mod Cleanup
mod Tests
use Prim.Native.String.{[] as empty_text, ◌∷◌ as ◌⊳◌, ◌++◌ as ◌⊹◌, len}
use Prim.Native.Char.{code}
use silent_devops.Prelude.{
  ℕ, ◌/◌, ◌≤◌, String, ◌≡◌, refl, ◌≢◌, ◌↔◌, inl, inr, Bool, true, false, not, ◌&&◌, ◌||◌, List, [],
  ◌∷◌, arith, str_eq, str_eq_iff, ltb, leb, ◌==◌, if◌then◌else◌, Bool-cases, exists,
}

-- `for _, r := range unit`
abbrev pub runes : String → List ℕ
runes empty_text = []
runes (c ⊳ s) = code c ∷ runes s

abbrev between : ℕ → ℕ → ℕ → Bool
between low high r = leb low r && leb r high

-- Letters, digits, and the characters of "_.@:-".
abbrev pub unit_rune : ℕ → Bool
unit_rune r =
    (between 97 122 r || (between 65 90 r || between 48 57 r))
    || ((r == 95 || r == 46) || (r == 64 || (r == 58 || r == 45)))

-- The characters of the first test: / ; | & ` $ \ and line feed, carriage return, tab, space.
abbrev pub shell_rune : ℕ → Bool
shell_rune r =
    ((r == 47 || r == 59) || (r == 124 || (r == 38 || r == 96)))
    || ((r == 36 || r == 92) || ((r == 10 || r == 13) || (r == 9 || r == 32)))

abbrev pub all_of : (ℕ → Bool) → List ℕ → Bool
all_of p [] = true
all_of p (r ∷ rs) = p r && all_of p rs

-- `ValidateUnit`
unfoldable pub validate_unit : String → Bool
validate_unit unit =
    if str_eq unit "" || (ltb 256 (len unit) || exists shell_rune (runes unit))
    then false
    else all_of unit_rune (runes unit)

-- The first test of characters refuses nothing that the second does not.
shell_rune-unit_rune : (r : ℕ) → shell_rune r ≡ true → unit_rune r ≡ false
shell_rune-unit_rune r h = ground arith

-- `Operations` of operations.go: the argument lists, empty where the arguments are refused. Times are
-- milliseconds from 1970, where a time is never Go's zero time. `decimal` is strconv's formatting.
unfoldable pub processes : ℕ → List String
processes limit =
    if limit == 0 || ltb 1000 limit
    then []
    else "ps" ∷ "-eo" ∷ "pid=,ppid=,user=,stat=,etimes=,comm=" ∷ "--sort=-etimes" ∷ []

unfoldable pub list_units : ℕ → List String
list_units limit =
    if limit == 0 || ltb 1000 limit
    then []
    else "systemctl" ∷ "list-units" ∷ "--type=service" ∷ "--all" ∷ "--no-legend" ∷ "--no-pager"
      ∷ "--plain" ∷ []

-- The action is one of status, start, stop, restart.
pub data UnitAction : Type 0 where
  status start stop restart : UnitAction

abbrev pub action_text : UnitAction → String
action_text status = "show"
action_text start = "start"
action_text stop = "stop"
action_text restart = "restart"

abbrev pub unit_argv : UnitAction → String → List String
unit_argv status unit =
    "systemctl" ∷ "show" ∷ unit ∷ "--no-pager"
    ∷ "--property=Id,LoadState,ActiveState,SubState,Description" ∷ []
unit_argv action unit = "systemctl" ∷ action_text action ∷ "--" ∷ unit ∷ []

unfoldable pub service : UnitAction → String → List String
service action unit = if validate_unit unit then unit_argv action unit else []

module _ (decimal : ℕ → String) where
  abbrev pub journal_argv : String → ℕ → ℕ → ℕ → List String
  journal_argv unit since until limit =
      "journalctl"
      ∷ "--unit"
      ∷ unit
      ∷ "--since"
      ∷ ("@" ⊹ decimal (since / 1000))
      ∷ "--until"
      ∷ ("@" ⊹ decimal (until / 1000))
      ∷ "--lines"
      ∷ decimal limit
      ∷ "--no-pager"
      ∷ "--output=short-iso"
      ∷ []

  unfoldable pub journal : String → ℕ → ℕ → ℕ → List String
  journal unit since until limit =
      if not (validate_unit unit) || ((limit == 0 || ltb 10_000 limit) || leb until since)
      then []
      else journal_argv unit since until limit

all_unit-no_shell : (rs : List ℕ) → all_of unit_rune rs ≡ true → exists shell_rune rs ≡ false
all_unit-no_shell [] h = refl
all_unit-no_shell (r ∷ rs) h = elim (Bool-cases (shell_rune r)) [
  | inl bad ↦ let not_unit = shell_rune-unit_rune r bad in absurd (ground arith)
  | inr good ↦ let rest = all_unit-no_shell rs (ground arith) in rw (good) rest
]

-- A unit is valid exactly when it has between 1 and 256 bytes and each of its characters is a letter,
-- a digit, or one of "_.@:-"; the list of forbidden characters refuses nothing more.
pub validate_unit_exact :
    (unit : String)
    → validate_unit unit ≡ true
      ↔ (unit ≢ "") × (len unit ≤ 256) × (all_of unit_rune (runes unit) ≡ true)
unfolding validate_unit
validate_unit_exact unit = (
  (λ h. (ground (arith, str_eq_iff unit ""), ground arith, ground arith)),
  (λ (given, short, good).
      let clean = all_unit-no_shell (runes unit) good in
      let named : str_eq unit "" ≡ false = ground (arith, str_eq_iff unit "") in
      let within : ltb 256 (len unit) ≡ false = ground arith in rw (named, within, clean) good),
)
