-- ===== src/Terminal/React.antt =====
-- The reaction to a key keeps the form in order.
use silent_devops.Prelude.{
  ℕ, zero, suc, ◌+◌, ◌-◌, ◌<◌, String, ◌≡◌, refl, ap, ◌∙◌, inl, inr, Bool, true, false, not, ◌&&◌,
  ◌||◌, some, List, [], ◌∷◌, arith, ltb, ◌==◌, if◌then◌else◌, Bool-cases, length, Result, ok, err,
  is_ok,
}
use silent_devops.Terminal.{
  Key, esc, forward, backward, left, right, space, enter, text, AgentView, FormField, Form,
  FormError, at_submit, stops, nth, turn_left, turn_right, toggle, Reaction, stays, closes, panics,
  complains, sends, validate, migrate_args, put_key, dispatch_form, submit, react,
}
use silent_devops.Terminal.Focus.{
  FormValid, move-Valid, switch-Valid, left_key-Valid, right_key-Valid, toggle-at_submit,
  toggle-confirm,
}

module _ (type_key : String → String → String) (trim : String → String)
    (positive : String → Bool) where
  -- A confirmation is only asked for at the submit stop, of a form in order.
  abbrev pub pending_ok : Form → Bool
  pending_ok f =
      not f.confirm || (f.focus == at_submit && is_ok (validate type_key trim positive f))

  abbrev pub GoodReaction : Reaction → Type 0
  GoodReaction (stays f) = FormValid f × (pending_ok f ≡ true)
  GoodReaction panics = 0 < 0
  GoodReaction closes = Unit {0}
  GoodReaction (complains why) = Unit {0}
  GoodReaction (sends args) = Unit {0}

  left-kept : (f : Form) → ((turn_left f).confirm ≡ f.confirm) × ((turn_left f).focus ≡ f.focus)
  left-kept f = elim (Bool-cases (length f.targets == 0)) [
    | inl none_left ↦ (rw none_left refl, rw none_left refl)
    | inr some_left ↦ (rw some_left refl, rw some_left refl)
  ]

  right-kept : (f : Form) → ((turn_right f).confirm ≡ f.confirm) × ((turn_right f).focus ≡ f.focus)
  right-kept f = elim (Bool-cases (length f.targets == 0)) [
    | inl none_left ↦ (rw none_left refl, rw none_left refl)
    | inr some_left ↦ (rw some_left refl, rw some_left refl)
  ]

  unasked : (f : Form) → f.confirm ≡ false → pending_ok f ≡ true
  unasked f h = rw h refl

  toggle-pending :
      (turn : Form → Form) (f : Form)
      → ((turn f).confirm ≡ f.confirm) × ((turn f).focus ≡ f.focus)
      → pending_ok f ≡ true
      → pending_ok (toggle turn f) ≡ true
  toggle-pending turn f kept p = elim (Bool-cases f.confirm) [
    | inr still ↦ unasked (toggle turn f) ((toggle-confirm turn f kept).0 ∙ still)
    | inl asked ↦
        let at : f.focus ≡ at_submit = ground arith in
        ap pending_ok (toggle-at_submit turn f at) ∙ p
  ]

  pub in_range {ℓ} :
      {A : Type ℓ} (xs : List A) (n : ℕ) → n < length xs → (x : A) × (nth xs n ≡ some x)
  in_range [] n h = absurd (omega arith)
  in_range (x ∷ xs) zero h = (x, refl)
  in_range (x ∷ xs) (suc n) h = in_range xs n (omega arith)

  dispatch-sends :
      (f : Form)
      → FormValid f
      → (target : AgentView) × (dispatch_form type_key trim positive f
          ≡ sends (migrate_args type_key trim positive f target))
  dispatch-sends f v =
      let (target, found) = in_range f.targets f.target v.has_target in
      (target, rw (found, dispatch_form) refl)

  length-put_key :
      (key : String) (i : ℕ) (fs : List FormField)
      → length (put_key type_key trim positive key i fs) ≡ length fs
  length-put_key key i [] = refl
  length-put_key key zero (f ∷ fs) = refl
  length-put_key key (suc i) (f ∷ fs) = ap suc (length-put_key key i fs)

  either-Good :
      (b : Bool) (x y : Reaction)
      → GoodReaction x
      → GoodReaction y
      → GoodReaction (if b then x else y)
  either-Good true x y gx gy = gx
  either-Good false x y gx gy = gy

  submit-Good :
      (f : Form)
      → FormValid f
      → f.focus ≡ at_submit
      → (m : Result FormError (Unit {0})) → validate type_key trim positive f ≡ m
      → GoodReaction (submit type_key trim positive f m)
  unfolding validate
  submit-Good f v at (err why) e = tt
  submit-Good f v at (ok fine) e =
      let fine' : is_ok (validate type_key trim positive f) ≡ true = ap is_ok e in
      let sent : GoodReaction (dispatch_form type_key trim positive f) =
        rw ((dispatch-sends f v).1) tt in
      either-Good f.confirm (dispatch_form type_key trim positive f)
        (stays (record f { confirm = true })) sent
        (switch-Valid f f.create f.overwrite f.detach true v, rw at fine')

  pub react-Good :
      (f : Form) (key : Key)
      → FormValid f
      → pending_ok f ≡ true
      → GoodReaction (react type_key trim positive f key)
  unfolding react
  react-Good f esc v p = tt
  react-Good f forward v p = (move-Valid f (f.focus + 1) false v, refl)
  react-Good f backward v p = (move-Valid f (f.focus + stops - 1) false v, refl)
  react-Good f left v p = (left_key-Valid f v, toggle-pending turn_left f (left-kept f) p)
  react-Good f right v p = (right_key-Valid f v, toggle-pending turn_right f (right-kept f) p)
  react-Good f space v p = (right_key-Valid f v, toggle-pending turn_right f (right-kept f) p)
  react-Good f enter v p = elim (Bool-cases (f.focus == at_submit)) [
    | inl at ↦ rw at (submit-Good f v (ground arith) (validate type_key trim positive f) refl)
    | inr away ↦
        let unasked_yet : f.confirm ≡ false = ground arith in
        rw away (move-Valid f (f.focus + 1) f.confirm v, unasked _ unasked_yet)
  ]
  react-Good f (text key) v p = elim (Bool-cases (ltb f.focus (length f.fields))) [
    | inr away ↦ rw away (v, p)
    | inl typing ↦
        let fields = put_key type_key trim positive key f.focus f.fields in
        let changed : FormValid (record f { fields = fields }) = record {
          in_focus = v.in_focus;
          six = length-put_key key f.focus f.fields ∙ v.six;
          has_target = v.has_target;
          others = v.others;
        } in
        let unasked_yet : f.confirm ≡ false = ground (arith, v.six) in
        rw typing (changed, unasked (record f { fields = fields }) unasked_yet)
  ]
