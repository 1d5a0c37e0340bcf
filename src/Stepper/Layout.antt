-- ===== src/Stepper/Layout.antt =====
-- The layout of a stepper: `Stepper`, `VerticalContent`, `HorizontalContent` and `Step` of
-- ui/vite-opentask/src/components/ui/stepper.tsx. Class names, sizes and styles are left out.
pub mod Content
use open_task.Common.{
  ℕ, zero, suc, ◌-◌, String, Bool, true, false, ◌||◌, ◌&&◌, not, Option, none, some, List, [], ◌∷◌,
  length, get_elem?, if◌then◌else◌, eqb, ok, throw, ◌>>=◌,
}
use open_task.Common.Int.{ℤ, pos, negsuc, eqb_ℤ, ltb_ℤ}
use open_task.Js.Exception.{Result, plain_error}
use open_task.Stepper.{StepItem, Stepper, provider}

pub data Orientation : Type 0 where
  vertical horizontal : Orientation

pub data State : Type 0 where
  loading error : State

pub data Variant : Type 0 where
  circle circle_alt line : Variant

-- Icons, handlers of clicks and what is rendered are values of any type.
module _ (Icon Handler Node : Type 0) where
  -- `StepProps`, as the user of a stepper gives them.
  pub record StepProps : Type 0 where
    pub label : Option Node
    pub description : Option String
    pub icon : Option Icon
    pub state : Option State
    pub check_icon : Option Icon
    pub error_icon : Option Icon
    pub is_completed_step : Option Bool
    pub is_keep_error : Bool
    pub on_click_step : Option Handler
    pub children : Node

  -- A child of a stepper: a step, another element, or what is no element.
  pub data Child : Type 0 where
    step : StepProps → Child
    element : Node → Child
    no_element : Node → Child

  pub record StepperProps : Type 0 where
    pub orientation : Orientation
    pub state : Option State
    pub responsive : Bool
    pub check_icon : Option Icon
    pub error_icon : Option Icon
    pub on_click_step : Option Handler
    pub expand_vertical_steps : Bool
    pub initial_step : ℤ
    pub steps : List StepItem
    pub variant : Option Variant
    pub scroll_tracking : Bool
    pub children : List Child

  -- `StepperContextValue`, with the state of the provider.
  pub record Context : Type 0 where
    pub stepper : Stepper
    pub previous_active_step : Option ℤ
    pub orientation : Orientation
    pub is_error : Bool
    pub is_loading : Bool
    pub check_icon : Option Icon
    pub error_icon : Option Icon
    pub on_click_step : Option Handler
    pub clickable : Bool
    pub step_count : ℕ
    pub is_vertical : Bool
    pub variant : Variant
    pub expand_vertical_steps : Bool
    pub scroll_tracking : Bool

  -- A step with what `VerticalContent` adds to it.
  pub record PlacedStep : Type 0 where
    pub props : StepProps
    pub index : ℕ
    pub is_completed_step : Bool
    pub is_current_step : Bool
    pub is_last_step : Bool

abbrev pub is_some : {A : Type 0} → Option A → Bool
is_some none = false
is_some (some a) = true

abbrev pub is_state_error : Option State → Bool
is_state_error (some error) = true
is_state_error _ = false

abbrev pub is_state_loading : Option State → Bool
is_state_loading (some loading) = true
is_state_loading _ = false

abbrev pub is_orientation_vertical : Orientation → Bool
is_orientation_vertical vertical = true
is_orientation_vertical horizontal = false

module _ {Icon Handler Node : Type 0} where
  -- The loop over the children: the steps, and the footer, in which a step is null.
  unfoldable pub split_children :
      List (Child Icon Handler Node)
      → Result (List (StepProps Icon Handler Node) × List (Option Node))
  split_children [] = ok ([], [])
  split_children (step props ∷ rest) = do
    (items, footer) ← split_children rest
    ok (props ∷ items, none ∷ footer)
  split_children (element node ∷ rest) = do
    (items, footer) ← split_children rest
    ok (items, some node ∷ footer)
  split_children (no_element node ∷ rest) =
      throw (plain_error "Stepper children must be valid React elements.")

  -- `isMobile && responsive ? "vertical" : orientationProp`
  unfoldable pub oriented : Bool → StepperProps Icon Handler Node → Orientation
  oriented is_mobile props = if is_mobile && props.responsive then vertical else props.orientation

  -- What `Stepper` and a fresh `StepperProvider` give to the steps.
  unfoldable pub context : Bool → StepperProps Icon Handler Node → ℕ → Context Icon Handler Node
  unfolding oriented provider
  context is_mobile props step_count = record {
    stepper = provider props.steps props.initial_step;
    previous_active_step = none;
    orientation = oriented is_mobile props;
    is_error = is_state_error props.state;
    is_loading = is_state_loading props.state;
    check_icon = props.check_icon;
    error_icon = props.error_icon;
    on_click_step = props.on_click_step;
    clickable = is_some props.on_click_step;
    step_count = step_count;
    is_vertical = is_orientation_vertical (oriented is_mobile props);
    variant = elim (props.variant) [ none ↦ circle | some v ↦ v ];
    expand_vertical_steps = props.expand_vertical_steps;
    scroll_tracking = props.scroll_tracking;
  }

  -- `child.props.isCompletedStep ?? i < activeStep`, and the other properties of the i-th step.
  unfoldable pub placed_at : ℤ → ℕ → ℕ → StepProps Icon Handler Node → PlacedStep Icon Handler Node
  placed_at active_step step_count i props = record {
    props = props;
    index = i;
    is_completed_step = elim (props.is_completed_step) [
      | none ↦ ltb_ℤ (pos i) active_step
      | some b ↦ b
    ];
    is_current_step = eqb_ℤ (pos i) active_step;
    is_last_step = eqb (suc i) step_count;
  }

  placed_from : ℤ → ℕ → ℕ → List (StepProps Icon Handler Node) → List (PlacedStep Icon Handler Node)
  placed_from active_step step_count i [] = []
  placed_from active_step step_count i (props ∷ rest) =
      placed_at active_step step_count i props ∷ placed_from active_step step_count (suc i) rest

  -- `VerticalContent`
  unfoldable pub vertical_content :
      ℤ → List (StepProps Icon Handler Node) → List (PlacedStep Icon Handler Node)
  unfolding placed_from placed_at
  vertical_content active_step children = placed_from active_step (length children) 0 children

  -- `HorizontalContent`: the children of the active step.
  unfoldable pub horizontal_content : ℤ → List (StepProps Icon Handler Node) → Option Node
  horizontal_content active_step children =
      if ltb_ℤ (pos (length children)) active_step then none else elim active_step [
        | pos i ↦ elim (get_elem? children i) [ none ↦ none | some props ↦ some props.children ]
        | negsuc i ↦ none
      ]

  -- `Step`: `hasVisited`
  unfoldable pub has_visited : PlacedStep Icon Handler Node → Bool
  has_visited s = s.is_current_step || s.is_completed_step
