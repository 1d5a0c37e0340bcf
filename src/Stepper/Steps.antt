-- ===== src/Stepper/Steps.antt =====
-- One step on the page: `VerticalStep`, `HorizontalStep`, `StepButtonContainer`, `StepIcon` and
-- `StepLabel` of ui/vite-opentask/src/components/ui/stepper.tsx, as the values that decide what is
-- rendered. Class names, sizes and styles are left out.
pub mod Icons
use open_task.Common.{
  ℕ, zero, suc, ◌+◌, ◌-◌, String, ◌==◌, Bool, true, false, ◌||◌, ◌&&◌, not, Option, none, some,
  List, [], ◌∷◌, ◌++◌, length, get_elem?, if◌then◌else◌, eqb, ltb,
}
use open_task.Common.Int.{ℤ, pos, negsuc, ◌-ℤ◌, eqb_ℤ}
use open_task.Stepper.{StepItem, is_last_step}
use open_task.Stepper.Layout.{
  State, Variant, circle, circle_alt, line, Orientation, horizontal, vertical, StepProps, Context,
  PlacedStep, has_visited, is_state_error, is_state_loading, is_some,
}

abbrev pub is_line : Variant → Bool
is_line line = true
is_line _ = false

-- `a || b`, of icons
abbrev pub or_icon : {A : Type 0} → Option A → Option A → Option A
or_icon none b = b
or_icon (some a) b = some a

-- What `StepIcon` renders.
pub data IconView (Icon : Type 0) : Type 0 where
  custom_check : Icon → IconView Icon
  default_check cross spinner : IconView Icon
  custom_error own_icon : Icon → IconView Icon
  number : ℕ → IconView Icon

-- The flags of the button around the icon.
pub record ButtonView : Type 0 where
  pub is_focusable : Bool
  pub is_current : Bool
  pub is_invalid : Bool
  pub is_active : Bool
  pub is_clickable : Bool
  pub is_loading : Bool

-- `StepLabel`: the texts that are shown; none when it renders null.
pub record LabelView (Node : Type 0) : Type 0 where
  pub is_current : Bool
  pub opacity_tenths : ℕ
  pub label : Option Node
  pub description : Option String

pub record VerticalView (Icon Node : Type 0) : Type 0 where
  pub optional : Bool
  pub is_completed : Bool
  pub is_active : Bool
  pub is_clickable : Bool
  pub is_invalid : Bool
  pub has_gap : Bool
  pub has_min_height : Bool
  pub icon : IconView Icon
  pub button : Option ButtonView
  pub label : Option (LabelView Node)
  pub is_expanded : Bool
  pub scrolls_into_view : Bool

pub record HorizontalView (Icon Node : Type 0) : Type 0 where
  pub is_disabled : Bool
  pub optional : Bool
  pub is_completed : Bool
  pub is_active : Bool
  pub is_invalid : Bool
  pub is_clickable : Bool
  pub icon : IconView Icon
  pub button : Option ButtonView
  pub label : Option (LabelView Node)

pub data StepView (Icon Node : Type 0) : Type 0 where
  in_column : VerticalView Icon Node → StepView Icon Node
  in_row : HorizontalView Icon Node → StepView Icon Node

module _ {Icon Handler Node : Type 0} where
  module _ (c : Context Icon Handler Node) (s : PlacedStep Icon Handler Node) where
    -- `localIsLoading`, `localIsError`, `opacity` and `active`, alike in both kinds of step.
    unfoldable pub local_is_loading : Bool
    local_is_loading = c.is_loading || is_state_loading s.props.state

    unfoldable pub local_is_error : Bool
    local_is_error = c.is_error || is_state_error s.props.state

    unfoldable pub opacity_tenths : ℕ
    unfolding has_visited
    opacity_tenths = if has_visited s then 10 else 8

    unfoldable pub active : Bool
    active =
        if is_line c.variant then s.is_completed_step || s.is_current_step else s.is_completed_step

    -- `steps[index || 0]?.optional`
    unfoldable pub optional : Bool
    optional = elim (get_elem? c.stepper.steps s.index) [
      | none ↦ false
      | some item ↦ item.is_optional
    ]

    -- `index === steps.length - 1`
    unfoldable pub is_last_of_steps : Bool
    is_last_of_steps = eqb_ℤ (pos s.index) (pos (length c.stepper.steps) -ℤ pos 1)

    -- `StepIcon`; `is_keep_error` is its property of that name.
    unfoldable pub step_icon : Bool → IconView Icon
    unfolding local_is_loading local_is_error
    step_icon is_keep_error =
        let check_icon = or_icon s.props.check_icon c.check_icon in
        let error_icon = or_icon s.props.error_icon c.error_icon in
        let plain : IconView Icon = elim (s.props.icon) [
          | none ↦ number (s.index + 1)
          | some icon ↦ own_icon icon
        ] in
        if s.is_completed_step
        then (if local_is_error && is_keep_error
            then cross
            else elim check_icon [ none ↦ default_check | some icon ↦ custom_check icon ])
        else if s.is_current_step
        then (if local_is_error
            then elim error_icon [ none ↦ cross | some icon ↦ custom_error icon ]
            else if local_is_loading
            then spinner
            else plain)
        else plain

    -- `StepButtonContainer`, of its properties `isError` and `isLoading`; it renders null for the
    -- variant line.
    unfoldable pub step_button : Bool → Bool → Option ButtonView
    step_button is_error is_loading =
        let clickable = c.clickable || is_some s.props.on_click_step in
        let reached = s.is_current_step || s.is_completed_step in
        if is_line c.variant
        then none
        else some (record {
          is_focusable = clickable;
          is_current = s.is_current_step;
          is_invalid = is_error && reached;
          is_active = s.is_completed_step;
          is_clickable = clickable;
          is_loading = (is_loading || c.is_loading) && reached;
        })

    -- `StepLabel`; an empty description counts as none.
    unfoldable pub step_label : Option (LabelView Node)
    unfolding opacity_tenths
    step_label =
        let description : Option String = elim (s.props.description) [
          | none ↦ none
          | some text ↦ if text == "" then none else some text
        ] in
        if is_some s.props.label || is_some description
        then some (record {
          is_current = s.is_current_step;
          opacity_tenths = opacity_tenths;
          label = s.props.label;
          description = description;
        })
        else none

    -- Whether the content of a vertical step is open: always with `expandVerticalSteps`.
    unfoldable pub is_expanded : Bool
    is_expanded = if not c.expand_vertical_steps then s.is_current_step else true

    -- Whether a vertical step scrolls into view when it is rendered.
    unfoldable pub scrolls_into_view : Bool
    scrolls_into_view =
        let came_from_end : Bool = elim (c.previous_active_step) [
          | none ↦ false
          | some i ↦ not (eqb_ℤ i (pos 0)) && eqb_ℤ i (pos (length c.stepper.steps))
        ] in
        not c.expand_vertical_steps
        && (c.scroll_tracking && ((eqb s.index 0 && came_from_end) || ltb 0 s.index))

    -- The handlers that a click of the step calls, in order: of a vertical step its own, and, as a
    -- handler returns nothing, the stepper's; of a horizontal one the stepper's.
    unfoldable pub clicked_vertical : List Handler
    clicked_vertical =
        let general : List Handler = elim (c.on_click_step) [ none ↦ [] | some h ↦ h ∷ [] ] in
        elim (s.props.on_click_step) [ none ↦ general | some h ↦ h ∷ general ]

    unfoldable pub clicked_horizontal : List Handler
    clicked_horizontal = elim (c.on_click_step) [ none ↦ [] | some h ↦ h ∷ [] ]

    -- `VerticalStep`: the icon is not told of `isKeepError`, and in the properties of the button those
    -- that the step was given, which are the stepper's, replace its own error and loading.
    unfoldable pub vertical_step : VerticalView Icon Node
    unfolding optional active local_is_error is_last_of_steps is_last_step step_icon step_button
        step_label is_expanded scrolls_into_view
    vertical_step = record {
      optional = optional;
      is_completed = s.is_completed_step;
      is_active = active;
      is_clickable = c.clickable || is_some s.props.on_click_step;
      is_invalid = local_is_error;
      has_gap = is_last_step c.stepper;
      has_min_height = not is_last_of_steps;
      icon = step_icon false;
      button = step_button c.is_error c.is_loading;
      label = step_label;
      is_expanded = is_expanded;
      scrolls_into_view = scrolls_into_view;
    }

    -- `HorizontalStep`
    unfoldable pub horizontal_step : HorizontalView Icon Node
    unfolding optional active local_is_error local_is_loading has_visited step_icon step_button
        step_label
    horizontal_step = record {
      is_disabled = not (has_visited s);
      optional = optional;
      is_completed = s.is_completed_step;
      is_active = active;
      is_invalid = local_is_error;
      is_clickable = c.clickable;
      icon = step_icon s.props.is_keep_error;
      button = step_button local_is_error local_is_loading;
      label = step_label;
    }

    -- `Step`: which of the two is rendered.
    unfoldable pub step_view : StepView Icon Node
    unfolding vertical_step horizontal_step
    step_view = if c.is_vertical then in_column vertical_step else in_row horizontal_step
