-- ===== src/Terminal/Focus.antt =====
-- The form stays in range: the focus and the target after each key.
use native.Mathlib.Nat.{mod-lt}
use silent_devops.Prelude.{
  ℕ, suc, ◌+◌, ◌-◌, ◌%◌, ◌<◌, ◌≡◌, refl, ap, ◌∙◌, inl, inr, Bool, false, not, List, [], ◌∷◌, arith,
  str_eq, ◌==◌, Bool-cases, length, exists,
}
use silent_devops.Terminal.{
  AgentView, FormField, Form, at_target, at_create, at_overwrite, at_detach, at_submit, stops,
  focus_fields, set_focus, turn_left, turn_right, toggle,
}

-- A form as the dashboard keeps it: the focus is at a stop, and the target is one of the agents other than
-- the source.
pub record FormValid (f : Form) : Type 0 where
  pub in_focus : f.focus < stops
  pub six : length f.fields ≡ 6
  pub has_target : f.target < length f.targets
  pub others : exists (λ (a : AgentView). str_eq a.id f.source.id) f.targets ≡ false

length-focus_fields : (i j : ℕ) (fs : List FormField) → length (focus_fields i j fs) ≡ length fs
unfolding focus_fields
length-focus_fields i j [] = refl
length-focus_fields i j (f ∷ fs) = ap suc (length-focus_fields i (suc j) fs)

pub turn-Valid :
    (f : Form) (to : ℕ) → FormValid f → FormValid (record f { target = to % length f.targets })
turn-Valid f to v = record {
  in_focus = v.in_focus;
  six = v.six;
  has_target = mod-lt to (omega (arith, v.has_target));
  others = v.others;
}

pub move-Valid :
    (f : Form) (to : ℕ) (asked : Bool)
    → FormValid f
    → FormValid (record (set_focus f (to % stops)) { confirm = asked })
move-Valid f to asked v = record {
  in_focus = omega arith;
  six = length-focus_fields (to % stops) 0 f.fields ∙ v.six;
  has_target = v.has_target;
  others = v.others;
}

-- Changes of the switches and of the confirmation.
pub switch-Valid :
    (f : Form) (create overwrite detach confirm : Bool)
    → FormValid f
    → FormValid
        (record f { create = create; overwrite = overwrite; detach = detach; confirm = confirm })
switch-Valid f create overwrite detach confirm v = record {
  in_focus = v.in_focus;
  six = v.six;
  has_target = v.has_target;
  others = v.others;
}

left-Valid : (f : Form) → FormValid f → FormValid (turn_left f)
left-Valid f v = elim (Bool-cases (length f.targets == 0)) [
  | inl none_left ↦ rw none_left v
  | inr some_left ↦ rw some_left (turn-Valid f (f.target + length f.targets - 1) v)
]

right-Valid : (f : Form) → FormValid f → FormValid (turn_right f)
right-Valid f v = elim (Bool-cases (length f.targets == 0)) [
  | inl none_left ↦ rw none_left v
  | inr some_left ↦ rw some_left (turn-Valid f (f.target + 1) v)
]

toggle-Valid :
    (turn : Form → Form) (f : Form) → FormValid f → FormValid (turn f) → FormValid (toggle turn f)
unfolding toggle
toggle-Valid turn f v turned = elim (Bool-cases (f.focus == at_target)) [
  | inl a ↦ rw a turned
  | inr not_a ↦ elim (Bool-cases (f.focus == at_create)) [
    | inl b ↦ rw (not_a, b) (switch-Valid f (not f.create) f.overwrite f.detach f.confirm v)
    | inr not_b ↦ elim (Bool-cases (f.focus == at_overwrite)) [
      | inl c ↦
          rw (not_a, not_b, c) (switch-Valid f f.create (not f.overwrite) f.detach f.confirm v)
      | inr not_c ↦ elim (Bool-cases (f.focus == at_detach)) [
        | inl d ↦
            rw (not_a, not_b, not_c, d)
              (switch-Valid f f.create f.overwrite (not f.detach) f.confirm v)
        | inr not_d ↦ rw (not_a, not_b, not_c, not_d) v
      ]
    ]
  ]
]

pub left_key-Valid : (f : Form) → FormValid f → FormValid (toggle turn_left f)
left_key-Valid f v = toggle-Valid turn_left f v (left-Valid f v)

pub right_key-Valid : (f : Form) → FormValid f → FormValid (toggle turn_right f)
right_key-Valid f v = toggle-Valid turn_right f v (right-Valid f v)

-- Where the keys left, right and space change nothing.
pub toggle-at_submit : (turn : Form → Form) (f : Form) → f.focus ≡ at_submit → toggle turn f ≡ f
unfolding toggle
toggle-at_submit turn f at =
    let not_a : (f.focus == at_target) ≡ false = rw at refl in
    let not_b : (f.focus == at_create) ≡ false = rw at refl in
    let not_c : (f.focus == at_overwrite) ≡ false = rw at refl in
    let not_d : (f.focus == at_detach) ≡ false = rw at refl in rw (not_a, not_b, not_c, not_d) refl

-- The switches keep the confirmation and the focus.
pub toggle-confirm :
    (turn : Form → Form) (f : Form)
    → ((turn f).confirm ≡ f.confirm) × ((turn f).focus ≡ f.focus)
    → ((toggle turn f).confirm ≡ f.confirm) × ((toggle turn f).focus ≡ f.focus)
unfolding toggle
toggle-confirm turn f kept = elim (Bool-cases (f.focus == at_target)) [
  | inl a ↦ rw a kept
  | inr not_a ↦ (rw not_a (ground arith), rw not_a (ground arith))
]
