-- ===== src/Terminal.antt =====
-- Terminal: the form of a migration in the dashboard, internal/clientcli/migrate_form.go. The text input
-- of a field (the package bubbles), strings.TrimSpace and the test of a positive number by strconv.Atoi
-- are arguments.
pub mod Focus
pub mod React
mod Run
mod Confirm
mod Tests
use silent_devops.Prelude.{
  ℕ, zero, suc, ◌+◌, ◌-◌, ◌%◌, String, Bool, true, false, not, ◌&&◌, Option, none, some, List, [],
  ◌∷◌, ◌++◌, str_eq, ltb, ◌==◌, if◌then◌else◌, length, select, Result, ok, err, ◌>>◌, fail_if,
}

-- A key, by the cases of `updateMigrate`; tab and down do the same, and so do shift+tab and up.
pub data Key : Type 0 where
  esc forward backward left right space enter : Key
  text : String → Key

pub record AgentView : Type 0 where
  pub id : String
  pub hostname : String

pub record FormField : Type 0 where
  pub value : String
  pub focused : Bool

pub record Form : Type 0 where
  pub fields : List FormField
  pub focus : ℕ
  pub targets : List AgentView
  pub target : ℕ
  pub create : Bool
  pub overwrite : Bool
  pub detach : Bool
  pub confirm : Bool
  pub source : AgentView

pub data FormError : Type 0 where
  second_agent_needed : FormError
  field_required : ℕ → FormError
  timeout_invalid no_target : FormError

pub record Dashboard : Type 0 where
  pub agents : List AgentView
  pub selected : ℕ
  pub form : Option Form
  pub migrating : Bool
  pub error : Option FormError
  pub loading : Bool
  pub on_easypanel : Bool

-- `mfRemoteURL`, `mfTimeout`, `mfTarget`, `mfCreate`, `mfOverwrite`, `mfDetach`, `mfSubmit`, `mfStops`
abbrev pub at_remote_url : ℕ
at_remote_url = 4

abbrev pub at_timeout : ℕ
at_timeout = 5

abbrev pub at_target : ℕ
at_target = 6

abbrev pub at_create : ℕ
at_create = 7

abbrev pub at_overwrite : ℕ
at_overwrite = 8

abbrev pub at_detach : ℕ
at_detach = 9

abbrev pub at_submit : ℕ
at_submit = 10

abbrev pub stops : ℕ
stops = 11

abbrev pub nth {ℓ} : {A : Type ℓ} → List A → ℕ → Option A
nth [] n = none
nth (x ∷ xs) zero = some x
nth (x ∷ xs) (suc n) = nth xs n

-- The loop of `setFocus`, with the index of the first field.
unfoldable pub focus_fields : ℕ → ℕ → List FormField → List FormField
focus_fields i j [] = []
focus_fields i j (f ∷ fs) = record f { focused = j == i } ∷ focus_fields i (suc j) fs

abbrev pub set_focus : Form → ℕ → Form
set_focus f i = record f { focus = i; fields = focus_fields i 0 f.fields }

abbrev pub blank : Bool → String → FormField
blank focused value = record { value = value; focused = focused }

-- `newMigrateForm`
abbrev pub new_form : AgentView → List AgentView → Form
new_form source targets = record {
  fields =
      blank true ""
      ∷ blank false ""
      ∷ blank false ""
      ∷ blank false ""
      ∷ blank false ""
      ∷ blank false "30"
      ∷ [];
  focus = 0;
  targets = targets;
  target = 0;
  create = true;
  overwrite = false;
  detach = false;
  confirm = false;
  source = source;
}

abbrev pub is_other : AgentView → AgentView → Bool
is_other source a = not (str_eq a.id source.id)

abbrev pub open_form : Dashboard → AgentView → List AgentView → Dashboard
open_form d source [] = record d { error = some second_agent_needed }
open_form d source (t ∷ ts) = record d {
  form = some (new_form source (t ∷ ts));
  migrating = true;
  error = none;
}

-- `openMigrate`; none is a panic, where the selection is out of range.
unfoldable pub open_migrate : Dashboard → Option Dashboard
open_migrate d = elim d.agents [
  | [] ↦ some d
  | a ∷ more ↦ elim (nth d.agents d.selected) [
    | none ↦ none
    | some source ↦ some (open_form d source (select (is_other source) d.agents))
  ]
]

-- `closeMigrate`
abbrev pub close_migrate : Dashboard → Dashboard
close_migrate d = record d { migrating = false; form = none }

-- The keys left, right and space.
abbrev pub turn_left : Form → Form
turn_left f =
    if length f.targets == 0
    then f
    else record f { target = (f.target + length f.targets - 1) % length f.targets }

abbrev pub turn_right : Form → Form
turn_right f =
    if length f.targets == 0 then f else record f { target = (f.target + 1) % length f.targets }

unfoldable pub toggle : (Form → Form) → Form → Form
toggle turn f =
    if f.focus == at_target
    then turn f
    else if f.focus == at_create
    then record f { create = not f.create }
    else if f.focus == at_overwrite
    then record f { overwrite = not f.overwrite }
    else if f.focus == at_detach
    then record f { detach = not f.detach }
    else f

-- What a key does: the form stays open, is closed, asks for an error to be shown, or is sent; a panic is
-- an index of a target out of range.
pub data Reaction : Type 0 where
  stays : Form → Reaction
  closes panics : Reaction
  complains : FormError → Reaction
  sends : List String → Reaction

module _ (type_key : String → String → String) (trim : String → String)
    (positive : String → Bool) where
  abbrev pub is_blank : FormField → Bool
  is_blank f = str_eq (trim f.value) ""

  -- The loop of `validate`, with the index of the first field.
  unfoldable pub required_from : ℕ → List FormField → Result FormError (Unit {0})
  required_from i [] = ok tt
  required_from i (f ∷ fs) =
      let rest = required_from (suc i) fs in
      if not (i == at_remote_url) && is_blank f then err (field_required i) else rest

  abbrev pub value_at : ℕ → Form → String
  value_at i f = elim (nth f.fields i) [ none ↦ "" | some field ↦ trim field.value ]

  -- `validate`
  unfoldable pub validate : Form → Result FormError (Unit {0})
  validate f = do
    required_from 0 f.fields
    fail_if (not (positive (value_at at_timeout f))) timeout_invalid
    fail_if (length f.targets == 0) no_target
    ok tt

  abbrev pub flag : Bool → String → List String
  flag false name = []
  flag true name = name ∷ []

  -- The arguments of `dispatchMigrate`.
  unfoldable pub migrate_args : Form → AgentView → List String
  migrate_args f target =
      let url = value_at at_remote_url f in
      (f.source.id
        ∷ "migrate"
        ∷ "--to-agent"
        ∷ target.id
        ∷ "--local-project"
        ∷ value_at 0 f
        ∷ "--local-service"
        ∷ value_at 1 f
        ∷ "--remote-project"
        ∷ value_at 2 f
        ∷ "--remote-service"
        ∷ value_at 3 f
        ∷ [])
      ++ (if str_eq url "" then [] else "--remote-url" ∷ url ∷ [])
      ++ ("--timeout" ∷ value_at at_timeout f ∷ [])
      ++ flag f.create "--create-remote-project"
      ++ flag f.overwrite "--overwrite-remote-service"
      ++ flag f.detach "--detach"

  abbrev pub put_key : String → ℕ → List FormField → List FormField
  put_key key i [] = []
  put_key key zero (f ∷ fs) = record f { value = type_key f.value key } ∷ fs
  put_key key (suc i) (f ∷ fs) = f ∷ put_key key i fs

  -- `dispatchMigrate`
  abbrev pub dispatch_form : Form → Reaction
  dispatch_form f = elim (nth f.targets f.target) [
    | none ↦ panics
    | some target ↦ sends (migrate_args f target)
  ]

  abbrev pub submit : Form → Result FormError (Unit {0}) → Reaction
  submit f (err why) = complains why
  submit f (ok fine) = if f.confirm then dispatch_form f else stays (record f { confirm = true })

  unfoldable pub react : Form → Key → Reaction
  react f esc = closes
  react f forward = stays (record (set_focus f ((f.focus + 1) % stops)) { confirm = false })
  react f backward =
      stays (record (set_focus f ((f.focus + stops - 1) % stops)) { confirm = false })
  react f left = stays (toggle turn_left f)
  react f right = stays (toggle turn_right f)
  react f space = stays (toggle turn_right f)
  react f enter =
      if f.focus == at_submit
      then submit f (validate f)
      else stays (set_focus f ((f.focus + 1) % stops))
  react f (text key) =
      if ltb f.focus (length f.fields)
      then stays (record f { fields = put_key key f.focus f.fields })
      else stays f

  abbrev pub show : Dashboard → Reaction → Option (Dashboard × Option (List String))
  show d (stays f) = some (record d { form = some f }, none)
  show d closes = some (close_migrate d, none)
  show d panics = none
  show d (complains why) = some (record d { error = some why }, none)
  show d (sends args) =
      some (record (close_migrate d) { loading = true; on_easypanel = true }, some args)

  -- `updateMigrate`: the dashboard after a key, and the arguments of the call that it starts
  unfoldable pub update_migrate : Dashboard → Key → Option (Dashboard × Option (List String))
  update_migrate d key = elim d.form [
    | none ↦ some (record d { migrating = false }, none)
    | some f ↦ show d (react f key)
  ]
