-- ===== src/Terminal/Tests.antt =====
-- Keys typed into a form, and the theorems about it there.
use silent_devops.Prelude.{
  ◌≤◌, String, ◌≡◌, refl, Bool, true, false, none, some, List, [], ◌∷◌, arith, str_eq, length,
}
use silent_devops.Terminal.{
  Key, left, right, space, enter, text, AgentView, Form, Dashboard, nth, focus_fields, blank,
  new_form, open_migrate, toggle, sends, required_from, validate, migrate_args, react,
  update_migrate,
}
use silent_devops.Terminal.Focus.{FormValid}
use silent_devops.Terminal.Run.{type_keys, InRange, migrate_form_safe}
use silent_devops.Terminal.Confirm.{hold_keys, confirmed_send}

abbrev type_key : String → String → String
type_key value key = key

abbrev trim : String → String
trim s = s

abbrev positive : String → Bool
positive s = str_eq s "30"

abbrev agent : String → AgentView
agent id = record { id = id; hostname = "" }

abbrev dashboard : Dashboard
dashboard = record {
  agents = agent "a1" ∷ agent "a2" ∷ [];
  selected = 0;
  form = none;
  migrating = false;
  error = none;
  loading = false;
  on_easypanel = false;
}

-- The four names, and Enter on each stop up to the last one.
abbrev keys : List Key
keys =
    text "p"
    ∷ enter
    ∷ text "s"
    ∷ enter
    ∷ text "q"
    ∷ enter
    ∷ text "t"
    ∷ enter
    ∷ enter
    ∷ enter
    ∷ right
    ∷ enter
    ∷ enter
    ∷ space
    ∷ enter
    ∷ enter
    ∷ enter
    ∷ left
    ∷ enter
    ∷ enter
    ∷ []

abbrev form : Form
form = new_form (agent "a1") (agent "a2" ∷ [])

abbrev filled : Form
filled = record form {
  fields =
      blank false "p"
      ∷ blank false "s"
      ∷ blank false "q"
      ∷ blank false "t"
      ∷ blank false ""
      ∷ blank false "30"
      ∷ [];
  focus = 10;
  confirm = true;
}

sent_once :
    type_keys type_key trim positive (record dashboard { form = some form; migrating = true }) keys
    ≡ some (
      record dashboard { loading = true; on_easypanel = true },
      migrate_args type_key trim positive (record filled { overwrite = true }) (agent "a2") ∷ [],
    )
unfolding type_keys update_migrate react toggle focus_fields validate required_from migrate_args
sent_once = refl

migrate_form_safe_example :
    (start : Dashboard) × (open_migrate dashboard ≡ some start)
    × ((o : Dashboard × List (List String)) × (type_keys type_key trim positive start keys ≡ some o)
        × (length o.1 ≤ 1)
        × InRange type_key trim positive o.0.form)
migrate_form_safe_example =
    migrate_form_safe type_key trim positive dashboard keys (omega arith) refl

filled_valid : FormValid filled
filled_valid = record {
  in_focus = omega arith;
  six = refl;
  has_target = omega arith;
  others = refl;
}

confirmed_send_example :
    (target : AgentView) × (nth (agent "a2" ∷ []) 0 ≡ some target)
    × (react type_key trim positive filled enter
        ≡ sends (migrate_args type_key trim positive filled target))
confirmed_send_example =
    confirmed_send type_key trim positive filled (left ∷ text "x" ∷ []) filled filled_valid
      (unfold validate required_from in refl) refl (unfold hold_keys react toggle in refl)
