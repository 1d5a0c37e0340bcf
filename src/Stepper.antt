-- ===== src/Stepper.antt =====
-- The steps of a dialog: `StepperProvider` and `useStepper` of
-- ui/vite-opentask/src/components/ui/stepper.tsx, and `StepButtons` of
-- ui/vite-opentask/src/pages/taskInfos/components/new-task-form.tsx.
pub mod Buttons
pub mod Layout
pub mod Steps
use open_task.Common.{
  ℕ, zero, suc, ◌-◌, String, Bool, true, false, Option, none, some, List, [], ◌∷◌, length,
  get_elem?, if◌then◌else◌,
}
use open_task.Common.Int.{ℤ, pos, negsuc, ◌+ℤ◌, ◌-ℤ◌, eqb_ℤ}

pub record StepItem : Type 0 where
  pub label : Option String
  pub is_optional : Bool

-- The context's value: the steps, and the active one, which no operation keeps in range.
pub record Stepper : Type 0 where
  pub steps : List StepItem
  pub initial_step : ℤ
  pub active_step : ℤ

-- `StepperProvider`: its first state, and the functions that it gives to the context.
unfoldable pub provider : List StepItem → ℤ → Stepper
provider steps initial_step = record {
  steps = steps;
  initial_step = initial_step;
  active_step = initial_step;
}

unfoldable pub next_step : Stepper → Stepper
next_step s = record s { active_step = s.active_step +ℤ pos 1 }

unfoldable pub prev_step : Stepper → Stepper
prev_step s = record s { active_step = s.active_step -ℤ pos 1 }

unfoldable pub reset_steps : Stepper → Stepper
reset_steps s = record s { active_step = s.initial_step }

unfoldable pub set_step : ℤ → Stepper → Stepper
set_step step s = record s { active_step = step }

-- `useStepper`
unfoldable pub is_last_step : Stepper → Bool
is_last_step s = eqb_ℤ s.active_step (pos (length s.steps) -ℤ pos 1)

unfoldable pub has_completed_all_steps : Stepper → Bool
has_completed_all_steps s = eqb_ℤ s.active_step (pos (length s.steps))

-- `steps[activeStep]`
unfoldable pub current_step : Stepper → Option StepItem
current_step s = elim (s.active_step) [ pos i ↦ get_elem? s.steps i | negsuc i ↦ none ]

unfoldable pub is_optional_step : Stepper → Bool
unfolding current_step
is_optional_step s = elim (current_step s) [ none ↦ false | some item ↦ item.is_optional ]

unfoldable pub is_disabled_step : Stepper → Bool
is_disabled_step s = eqb_ℤ s.active_step (pos 0)

-- What the second button of `StepButtons` is.
pub data ForwardButton : Type 0 where
  submit skip forward : ForwardButton

unfoldable pub forward_button : Stepper → ForwardButton
unfolding is_last_step is_optional_step
forward_button s = if is_last_step s then submit else if is_optional_step s then skip else forward

-- A click of the first button, which does nothing while it is disabled.
unfoldable pub click_back : Stepper → Stepper
unfolding is_disabled_step prev_step
click_back s = if is_disabled_step s then s else prev_step s

-- A click of the second button: a submit leaves the step.
unfoldable pub click_forward : Stepper → Stepper
unfolding is_last_step next_step
click_forward s = if is_last_step s then s else next_step s
