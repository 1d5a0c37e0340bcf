-- ===== src/Stepper/Buttons.antt =====
-- Where the buttons lead.
use open_task.Common.{
  ℕ, zero, suc, ◌+◌, ◌<◌, ◌≡◌, refl, true, false, List, length, arith, Bool-cases, inl, inr, eqb,
  ap, sym, ◌∙◌,
}
use open_task.Common.Int.{pos, ◌+ℤ◌, ◌-ℤ◌}
use open_task.Stepper.{
  StepItem, Stepper, provider, next_step, prev_step, is_last_step, is_disabled_step, click_back,
  click_forward, forward_button, submit,
}

-- The dialog after any clicks.
pub data Reachable (steps : List StepItem) : Stepper → Type 0 where
  opened : Reachable steps (provider steps (pos 0))
  back : {s : Stepper} → Reachable steps s → Reachable steps (click_back s)
  onward : {s : Stepper} → Reachable steps s → Reachable steps (click_forward s)

-- The active step is one of the steps.
pub record IsInRange (steps : List StepItem) (s : Stepper) : Type 0 where
  pub same_steps : s.steps ≡ steps
  pub index : ℕ
  pub is_index : s.active_step ≡ pos index
  pub in_range : index < length steps

is_last_step_at :
    (s : Stepper) (i : ℕ)
    → s.active_step ≡ pos i
    → 0 < length s.steps
    → is_last_step s ≡ eqb (suc i) (length s.steps)
unfolding is_last_step ◌-ℤ◌
is_last_step_at s i e some_steps = rw e (ground arith)

add_one : (i : ℕ) → (pos i +ℤ pos 1) ≡ pos (suc i)
unfolding ◌+ℤ◌
add_one i = ground arith

sub_one : (i : ℕ) → (pos (suc i) -ℤ pos 1) ≡ pos i
unfolding ◌-ℤ◌
sub_one i = ground arith

pub click_forward-IsInRange :
    (steps : List StepItem) (s : Stepper) → IsInRange steps s → IsInRange steps (click_forward s)
unfolding click_forward next_step
click_forward-IsInRange steps s v =
    let count : length s.steps ≡ length steps = ap length (v.same_steps) in
    let some_steps : 0 < length s.steps = omega (arith, v.in_range, count) in
    let last = is_last_step_at s v.index v.is_index some_steps in
    elim (Bool-cases (is_last_step s)) [
      | inl e ↦ rw e v
      | inr e ↦
          let more : suc v.index < length steps = ground (arith, v.in_range, count, last, e) in
          rw e (record {
            same_steps = v.same_steps;
            index = suc v.index;
            is_index = rw (v.is_index) (add_one v.index);
            in_range = more;
          })
    ]

is_disabled_step_at : (s : Stepper) (i : ℕ) → s.active_step ≡ pos i → is_disabled_step s ≡ eqb i 0
unfolding is_disabled_step
is_disabled_step_at s i e = rw e (ground arith)

prev_step-IsInRange :
    (steps : List StepItem) (s : Stepper) (i : ℕ)
    → s.steps ≡ steps
    → s.active_step ≡ pos i
    → i < length steps
    → eqb i 0 ≡ false
    → IsInRange steps (prev_step s)
unfolding prev_step
prev_step-IsInRange steps s zero same e lt real = cc
prev_step-IsInRange steps s (suc i) same e lt real = record {
  same_steps = same;
  index = i;
  is_index = rw e (sub_one i);
  in_range = omega arith;
}

pub click_back-IsInRange :
    (steps : List StepItem) (s : Stepper) → IsInRange steps s → IsInRange steps (click_back s)
unfolding click_back
click_back-IsInRange steps s v = elim (Bool-cases (is_disabled_step s)) [
  | inl e ↦ rw e v
  | inr e ↦ rw e (
      prev_step-IsInRange steps s v.index v.same_steps v.is_index v.in_range
        (sym (is_disabled_step_at s v.index v.is_index) ∙ e))
]

-- In a dialog with at least one step that is opened at the first, any clicks of its two buttons
-- leave the steps as they are and the active step at one of them.
pub Reachable-IsInRange :
    (steps : List StepItem) {s : Stepper} → 0 < length steps → Reachable steps s → IsInRange steps s
unfolding provider
Reachable-IsInRange steps h opened = record {
  same_steps = refl;
  index = 0;
  is_index = refl;
  in_range = h;
}
Reachable-IsInRange steps h (back {s = s} r) =
    click_back-IsInRange steps s (Reachable-IsInRange steps h r)
Reachable-IsInRange steps h (onward {s = s} r) =
    click_forward-IsInRange steps s (Reachable-IsInRange steps h r)

abbrev pub click_forward_times : ℕ → Stepper → Stepper
click_forward_times zero s = s
click_forward_times (suc n) s = click_forward_times n (click_forward s)

click_forward-next : (s : Stepper) → is_last_step s ≡ false → click_forward s ≡ next_step s
unfolding click_forward
click_forward-next s e = rw e refl

click_forward_from :
    (steps : List StepItem) (s : Stepper) (n i : ℕ)
    → s.steps ≡ steps
    → s.active_step ≡ pos i
    → suc (i + n) ≡ length steps
    → forward_button (click_forward_times n s) ≡ submit
unfolding forward_button next_step
click_forward_from steps s zero i same e end =
    let count : length s.steps ≡ length steps = ap length same in
    let some_steps : 0 < length s.steps = omega (arith, end, count) in
    let at_end : eqb (suc i) (length s.steps) ≡ true = ground (arith, end, count) in
    rw (is_last_step_at s i e some_steps, at_end) refl
click_forward_from steps s (suc n) i same e end =
    let count : length s.steps ≡ length steps = ap length same in
    let some_steps : 0 < length s.steps = omega (arith, end, count) in
    let before : eqb (suc i) (length s.steps) ≡ false = ground (arith, end, count) in
    ap (λ t. forward_button (click_forward_times n t))
      (click_forward-next s (is_last_step_at s i e some_steps ∙ before))
    ∙ (click_forward_from steps (next_step s) n (suc i) same (rw e (add_one i))
        (omega (arith, end)))

-- In a dialog with n + 1 steps that is opened at the first, n clicks of the second button lead to
-- the one that submits.
pub click_forward_times-submit :
    (steps : List StepItem) (n : ℕ)
    → length steps ≡ suc n
    → forward_button (click_forward_times n (provider steps (pos 0))) ≡ submit
unfolding provider
click_forward_times-submit steps n h =
    click_forward_from steps (provider steps (pos 0)) n 0 refl refl (omega (arith, h))
