-- ===== src/Terminal/Run.antt =====
-- The dashboard over any keys: at most one migration is started.
use silent_devops.Prelude.{
  ℕ, ◌+◌, ◌≤◌, ◌<◌, String, ◌≡◌, refl, ap, ◌∙◌, inl, inr, Bool, true, false, Option, none, some,
  List, [], ◌∷◌, arith, str_eq, Bool-cases, Option-cases, length, select, exists,
}
use silent_devops.Terminal.{
  Key, AgentView, Form, Dashboard, nth, is_other, open_form, open_migrate, Reaction, stays, closes,
  panics, complains, sends, react, show, update_migrate,
}
use silent_devops.Terminal.Focus.{FormValid}
use silent_devops.Terminal.React.{pending_ok, GoodReaction, in_range, react-Good}

module _ (type_key : String → String → String) (trim : String → String)
    (positive : String → Bool) where
  -- A run of keys, and the calls that it starts.
  unfoldable pub type_keys : Dashboard → List Key → Option (Dashboard × List (List String))
  type_keys d [] = some (d, [])
  type_keys d (key ∷ keys) = elim (update_migrate type_key trim positive d key) [
    | none ↦ none
    | some (d', sent) ↦ elim (type_keys d' keys) [
      | none ↦ none
      | some (last, more) ↦ elim sent [
        | none ↦ some (last, more)
        | some args ↦ some (last, args ∷ more)
      ]
    ]
  ]

  -- The dashboard between two keys; a form that is open is in range.
  abbrev pub InRange : Option Form → Type 0
  InRange none = Unit {0}
  InRange (some f) = FormValid f × (pending_ok type_key trim positive f ≡ true)

  abbrev pub forms : Option Form → ℕ
  forms none = 0
  forms (some f) = 1

  abbrev count : Option (List String) → ℕ
  count none = 0
  count (some args) = 1

  forms_bound : (f : Option Form) → forms f ≤ 1
  forms_bound none = omega arith
  forms_bound (some f) = omega arith

  show-InRange :
      (d : Dashboard) (r : Reaction)
      → InRange d.form
      → GoodReaction type_key trim positive r
      → (o : Dashboard × Option (List String)) × (show type_key trim positive d r ≡ some o)
        × InRange o.0.form
        × (count o.1 + forms o.0.form ≤ 1)
  show-InRange d (stays f) v g = (_, refl, g, omega arith)
  show-InRange d closes v g = (_, refl, tt, omega arith)
  show-InRange d panics v g = absurd (omega (arith, g))
  show-InRange d (complains why) v g = (_, refl, v, omega (arith, forms_bound d.form))
  show-InRange d (sends args) v g = (_, refl, tt, omega arith)

  key-InRange :
      (d : Dashboard) (f : Option Form) (key : Key)
      → d.form ≡ f
      → InRange f
      → (o : Dashboard × Option (List String)) × (update_migrate type_key trim positive d key
          ≡ some o)
        × InRange o.0.form
        × (count o.1 + forms o.0.form ≤ forms f)
  unfolding update_migrate
  key-InRange d none key e v =
      let shown : Option Form → Option (Dashboard × Option (List String)) = λ g. elim g [
        | none ↦ some (record d { migrating = false }, none)
        | some f ↦ show type_key trim positive d (react type_key trim positive f key)
      ] in
      ((record d { migrating = false }, none), ap shown e, rw e tt, rw e (omega arith))
  key-InRange d (some f) key e v =
      let (o, shown, good, once) =
        show-InRange d (react type_key trim positive f key) (rw e v)
          (react-Good type_key trim positive f key v.0 v.1) in
      (o, rw (e, update_migrate) shown, good, once)

  type_keys-InRange :
      (d : Dashboard) (keys : List Key)
      → InRange d.form
      → (o : Dashboard × List (List String)) × (type_keys d keys ≡ some o)
        × InRange o.0.form
        × (length o.1 + forms o.0.form ≤ forms d.form)
  unfolding type_keys
  type_keys-InRange d [] v = ((d, []), refl, v, omega arith)
  type_keys-InRange d (key ∷ keys) v =
      let ((d', sent), e, v', once) = key-InRange d d.form key refl v in
      let ((last, more), e', v'', rest) = type_keys-InRange d' keys v' in
      elim (Option-cases sent) [
        | inl quiet ↦ (
          (last, more),
          rw (e, type_keys) (rw (e', quiet, type_keys) refl),
          v'',
          ground (arith, ap count quiet),
        )
        | inr (args, spoke) ↦ (
          (last, args ∷ more),
          rw (e, type_keys) (rw (e', spoke, type_keys) refl),
          v'',
          ground (arith, ap count spoke),
        )
      ]

  select-others :
      (source : AgentView) (xs : List AgentView)
      → exists (λ (a : AgentView). str_eq a.id source.id) (select (is_other source) xs) ≡ false
  select-others source [] = refl
  select-others source (x ∷ xs) = elim (Bool-cases (str_eq x.id source.id)) [
    | inl own ↦ rw own (select-others source xs)
    | inr other ↦ rw (other, other) (select-others source xs)
  ]

  open_form-InRange :
      (d : Dashboard) (source : AgentView) (targets : List AgentView)
      → d.form ≡ none
      → exists (λ (a : AgentView). str_eq a.id source.id) targets ≡ false
      → InRange (open_form d source targets).form
  open_form-InRange d source [] closed others = rw closed tt
  open_form-InRange d source (t ∷ ts) closed others = (
    record { in_focus = omega arith; six = refl; has_target = omega arith; others = others },
    refl,
  )

  open-InRange :
      (d : Dashboard) (agents : List AgentView)
      → d.agents ≡ agents
      → d.selected < length agents
      → d.form ≡ none
      → (start : Dashboard) × (open_migrate d ≡ some start) × InRange start.form
  unfolding open_migrate
  open-InRange d [] e selected closed = absurd (omega arith)
  open-InRange d (a ∷ more) e selected closed =
      let (source, found) = in_range type_key trim positive (a ∷ more) d.selected selected in
      let chosen : Option AgentView → Option Dashboard = λ o. elim o [
        | none ↦ none
        | some source ↦ some (open_form d source (select (is_other source) d.agents))
      ] in
      let opens : List AgentView → Option Dashboard =
        λ agents. elim agents [ [] ↦ some d | a ∷ more ↦ chosen (nth d.agents d.selected) ] in
      (
        open_form d source (select (is_other source) d.agents),
        ap opens e ∙ ap (λ agents. chosen (nth agents d.selected)) e ∙ ap chosen found,
        open_form-InRange d source (select (is_other source) d.agents) closed
            (select-others source d.agents),
      )

  -- From a selected agent and no open form: opening the form and typing any keys never indexes out of
  -- range, starts at most one migration, and leaves a form that is closed or in order.
  pub migrate_form_safe :
      (d : Dashboard) (keys : List Key)
      → d.selected < length d.agents
      → d.form ≡ none
      → (start : Dashboard) × (open_migrate d ≡ some start)
        × ((o : Dashboard × List (List String)) × (type_keys start keys ≡ some o)
            × (length o.1 ≤ 1)
            × InRange o.0.form)
  migrate_form_safe d keys selected closed =
      let (start, opened, v) = open-InRange d d.agents refl selected closed in
      let (o, e, v', once) = type_keys-InRange start keys v in
      (start, opened, (o, e, omega (arith, once, forms_bound start.form), v'))
  -- The keys that come between the confirmation and the call.
