-- ===== src/Tests/Dialogs.antt =====
-- The dialog of a new task, which has three steps.
use open_task.Common.{◌≡◌, refl, false, some, List, [], ◌∷◌, arith}
use open_task.Common.Int.{pos}
use open_task.Stepper.{StepItem, provider, click_back, click_forward, forward_button, submit}
use open_task.Stepper.Buttons.{
  Reachable, opened, back, onward, IsInRange, Reachable-IsInRange, click_forward_times,
  click_forward_times-submit,
}

-- `steps`
abbrev steps : List StepItem
steps =
    record { label = some "基本信息"; is_optional = false }
    ∷ record { label = some "时间配置"; is_optional = false }
    ∷ record { label = some "报警配置"; is_optional = false }
    ∷ []

clicked-Reachable : Reachable steps (click_back (click_forward (provider steps (pos 0))))
clicked-Reachable = back (onward opened)

Reachable-IsInRange_example : IsInRange steps (click_back (click_forward (provider steps (pos 0))))
Reachable-IsInRange_example = Reachable-IsInRange steps (omega arith) clicked-Reachable

click_forward_times-submit_example :
    forward_button (click_forward_times 2 (provider steps (pos 0))) ≡ submit
click_forward_times-submit_example = click_forward_times-submit steps 2 refl
