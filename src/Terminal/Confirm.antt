-- ===== src/Terminal/Confirm.antt =====
-- What the form sends is what was confirmed.
use silent_devops.Prelude.{
  ◌+◌, ◌%◌, String, ◌≡◌, refl, sym, ap, ◌∙◌, ◌⊎◌, inl, inr, Bool, true, false, Option, none, some,
  List, [], ◌∷◌, arith, ltb, ◌==◌, if◌then◌else◌, Result-cases, length, is_ok,
}
use silent_devops.Terminal.{
  Key, esc, forward, backward, left, right, space, enter, text, AgentView, Form, at_submit, stops,
  nth, set_focus, turn_left, turn_right, toggle, Reaction, stays, sends, validate, migrate_args,
  dispatch_form, submit, react,
}
use silent_devops.Terminal.Focus.{FormValid, toggle-at_submit}
use silent_devops.Terminal.React.{pending_ok, in_range}

module _ (type_key : String → String → String) (trim : String → String)
    (positive : String → Bool) where
  abbrev pub kept : Reaction → Option Form
  kept (stays f) = if f.confirm then some f else none
  kept _ = none

  unfoldable pub hold_keys : Form → List Key → Option Form
  hold_keys f [] = some f
  hold_keys f (key ∷ keys) = elim (kept (react type_key trim positive f key)) [
    | none ↦ none
    | some f' ↦ hold_keys f' keys
  ]

  kept-toggle :
      (turn : Form → Form) (f : Form)
      → f.focus ≡ at_submit
      → f.confirm ≡ true
      → kept (stays (toggle turn f)) ≡ some f
  kept-toggle turn f at asked =
      ap (λ g. kept (stays g)) (toggle-at_submit turn f at) ∙ rw asked refl

  enter-sends :
      (f : Form)
      → FormValid f
      → pending_ok type_key trim positive f ≡ true
      → f.confirm ≡ true
      → (target : AgentView) × (nth f.targets f.target ≡ some target)
        × (react type_key trim positive f enter
            ≡ sends (migrate_args type_key trim positive f target))
  unfolding react
  enter-sends f v p asked = elim (Result-cases (validate type_key trim positive f)) [
    | inl (why, e) ↦ absurd (ground (arith, ap is_ok e))
    | inr (fine, e) ↦
        let (target, found) = in_range type_key trim positive f.targets f.target v.has_target in
        let at : (f.focus == at_submit) ≡ true = ground arith in
        let sent : dispatch_form type_key trim positive f
            ≡ sends (migrate_args type_key trim positive f target) =
          rw (found, dispatch_form) refl in
        let answer : Bool → Reaction = λ b.
          if b
          then submit type_key trim positive f (validate type_key trim positive f)
          else stays (set_focus f ((f.focus + 1) % stops)) in
        let pick : Bool → Reaction = λ b.
          if b
          then dispatch_form type_key trim positive f
          else stays (record f { confirm = true }) in
        (
          target,
          found,
          ap answer at ∙ ap (submit type_key trim positive f) e ∙ ap pick asked ∙ sent,
        )
  ]

  react-kept :
      (f : Form) (key : Key)
      → FormValid f
      → pending_ok type_key trim positive f ≡ true
      → f.confirm ≡ true
      → (kept (react type_key trim positive f key) ≡ none)
        ⊎ (kept (react type_key trim positive f key) ≡ some f)
  unfolding react
  react-kept f key v p asked = go key
    where
      at : f.focus ≡ at_submit
      at = ground arith

      go :
          (key : Key)
          → (kept (react type_key trim positive f key) ≡ none)
            ⊎ (kept (react type_key trim positive f key) ≡ some f)
      go esc = inl refl
      go forward = inl refl
      go backward = inl refl
      go left = inr (kept-toggle turn_left f at asked)
      go right = inr (kept-toggle turn_right f at asked)
      go space = inr (kept-toggle turn_right f at asked)
      go enter = inl (ap kept (enter-sends f v p asked).2)
      go (text key) =
          let off : ltb f.focus (length f.fields) ≡ false = ground (arith, v.six) in
          inr (rw (off, asked) refl)

  -- What is sent is what was confirmed: once Enter has asked for the confirmation, no key that leaves it
  -- pending changes the form, and the next Enter sends the arguments of the form that was confirmed.
  pub confirmed_send :
      (f : Form) (keys : List Key) (last : Form)
      → FormValid f
      → pending_ok type_key trim positive f ≡ true
      → f.confirm ≡ true
      → hold_keys f keys ≡ some last
      → (target : AgentView) × (nth f.targets f.target ≡ some target)
        × (react type_key trim positive last enter
            ≡ sends (migrate_args type_key trim positive f target))
  unfolding hold_keys
  confirmed_send f [] last v p asked held =
      let (target, found, sent) = enter-sends f v p asked in
      let same : f ≡ last = cc in
      (target, found, ap (λ g. react type_key trim positive g enter) (sym same) ∙ sent)
  confirmed_send f (key ∷ keys) last v p asked held =
      let next : Option Form → Option Form =
        λ o. elim o [ none ↦ none | some f' ↦ hold_keys f' keys ] in
      elim (react-kept f key v p asked) [
        | inl gone ↦ let nothing = sym (ap next gone) ∙ held in absurd cc
        | inr same ↦ confirmed_send f keys last v p asked (sym (ap next same) ∙ held)
      ]
