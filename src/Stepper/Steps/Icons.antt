-- ===== src/Stepper/Steps/Icons.antt =====
-- When a step shows an error.
use open_task.Common.{
  ◌≡◌, Bool, true, false, ◌&&◌, ◌||◌, not, Option, none, some, if◌then◌else◌, arith,
}
use open_task.Stepper.Layout.{State, error, loading, Context, PlacedStep}
use open_task.Stepper.Steps.{
  IconView, is_line, custom_check, default_check, cross, spinner, custom_error, own_icon, number,
  step_icon, step_button, ButtonView, local_is_error, vertical_step,
}

-- The icons of an error.
abbrev pub is_alarm : {Icon : Type 0} → IconView Icon → Bool
is_alarm cross = true
is_alarm (custom_error icon) = true
is_alarm (custom_check icon) = false
is_alarm default_check = false
is_alarm spinner = false
is_alarm (own_icon icon) = false
is_alarm (number n) = false

-- A button that is there, and not marked as invalid.
abbrev pub is_valid : Option ButtonView → Bool
is_valid none = false
is_valid (some button) = not button.is_invalid

-- The state of a step that failed.
unfoldable pub reports_error : Option State → Bool
reports_error none = false
reports_error (some loading) = false
reports_error (some error) = true

module _ {Icon Handler Node : Type 0} (c : Context Icon Handler Node)
    (s : PlacedStep Icon Handler Node) where
  is_alarm-step_icon :
      (keep : Bool)
      → is_alarm (step_icon c s keep)
        ≡ (local_is_error c s && (if s.is_completed_step then keep else s.is_current_step))
  unfolding step_icon
  is_alarm-step_icon keep = ground arith

  -- The error of the step itself, by the state among its properties, or of the stepper.
  abbrev pub has_failed : Bool
  has_failed = reports_error s.props.state || c.is_error

  -- A vertical step that is current, with an error of its own, shows the icon of an error in a button
  -- that is not marked as invalid.
  vertical_alarm :
      c.is_error ≡ false
      → is_line c.variant ≡ false
      → local_is_error c s ≡ true
      → s.is_completed_step ≡ false
      → s.is_current_step ≡ true
      → (is_alarm (vertical_step c s).icon && is_valid (vertical_step c s).button) ≡ true
  unfolding vertical_step step_button
  vertical_alarm calm buttons failed before now =
      ground (arith, is_alarm-step_icon false, calm, buttons, failed, before, now)
