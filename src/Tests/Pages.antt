-- ===== src/Tests/Pages.antt =====
-- The pages, the frame and the stepper on concrete states.
use open_task.Common.{
  ℕ, ◌+◌, ◌-◌, ◌≤◌, String, ◌≡◌, refl, true, false, Option, none, some, List, [], ◌∷◌, ok, ltb,
  if◌then◌else◌, arith,
}
use open_task.Common.Int.{pos, negsuc}
use open_task.Js.Value.{number}
use open_task.AppConfig.{stored_token}
use open_task.Pages.Filter.{on_select, clear}
use open_task.Pages.Filter.Selection.{selected, flip, IsProper, on_select-refines}
use open_task.Pages.Columns.{status_cell}
use open_task.Pages.Columns.Statuses.{status_cell_of_number}
use open_task.Pages.Paging.{Table, first, previous, next, last, shown_page}
use open_task.Pages.Paging.Clicks.{clicks, clicks_bounds}
use open_task.Layout.{sign_out}
use open_task.Layout.Menus.{is_user, sign_out-guard}
use open_task.Session.{current_user}
use open_task.Routing.{route_view, children_only, navigate}
use open_task.Routing.Guard.{is_login}
use open_task.Tests.Tokens.{browser}
use open_task.Stepper.Layout.{
  StepProps, StepperProps, PlacedStep, horizontal, error, horizontal_content, vertical_content,
}
use open_task.Stepper.Layout.Content.{content_of, current, horizontal_content-current}
use open_task.Tests.Samples.{platform, read_item}
use open_task.Tests.Forms.{save}

on_select-refines_example :
    let picked : Option (List String) = some ("done" ∷ "failed" ∷ []) in
    (selected (on_select "done" picked) ≡ flip "done" (selected picked))
    × (selected (clear picked) ≡ (λ k. false))
    × IsProper (on_select "done" picked)
on_select-refines_example = on_select-refines "done" (some ("done" ∷ "failed" ∷ []))

status_cell_of_number_example :
    (status_cell (number (pos 0)) ≡ some "未知") × (status_cell (number (negsuc 0)) ≡ none)
status_cell_of_number_example = status_cell_of_number 0

-- A table of three pages whose state is the index.
abbrev three_pages : Table ℕ
three_pages = record {
  page_index = λ s. s;
  page_size = λ s. 10;
  page_count = λ s. 3;
  can_previous_page = λ s. ltb 0 s;
  can_next_page = λ s. ltb (s + 1) 3;
  set_page_index = λ i s. i;
  previous_page = λ s. s - 1;
  next_page = λ s. s + 1;
  set_page_size = λ n s. s;
  can_previous = λ s. refl;
  can_next = λ s. refl;
  index_set = λ i s h. refl;
  count_set = λ i s. refl;
  previous_is = λ s. refl;
  next_is = λ s. refl;
}

clicks_bounds_example :
    let s = clicks three_pages (last ∷ next ∷ previous ∷ first ∷ []) 0 in
    (1 ≤ shown_page three_pages s) × (shown_page three_pages s ≤ 3) × (three_pages.page_count s ≡ 3)
clicks_bounds_example =
    clicks_bounds three_pages (last ∷ next ∷ previous ∷ first ∷ []) 0 (omega arith)

-- Steps whose content is a text.
abbrev step_of : String → StepProps ℕ ℕ String
step_of content = record {
  label = none;
  description = none;
  icon = none;
  state = none;
  check_icon = none;
  error_icon = none;
  is_completed_step = none;
  is_keep_error = false;
  on_click_step = none;
  children = content;
}

horizontal_content-current_example :
    let steps = step_of "name" ∷ step_of "time" ∷ step_of "alarm" ∷ [] in
    horizontal_content (pos 1) steps ≡ content_of (current (vertical_content (pos 1) steps))
horizontal_content-current_example =
    horizontal_content-current (pos 1) (step_of "name" ∷ step_of "time" ∷ step_of "alarm" ∷ [])

sign_out-guard_example :
    let out = sign_out save (some "\"abc\"") in
    (stored_token read_item out ≡ "")
    × (current_user browser (stored_token read_item out) ≡ ok none)
    × (route_view
          ("layout" ∷ "tasklog" ∷ [])
          (is_user (current_user browser (stored_token read_item out)))
        ≡ (if is_login ("layout" ∷ "tasklog" ∷ []) then children_only else navigate "/login"))
sign_out-guard_example =
    sign_out-guard platform browser read_item save (some "\"abc\"") ("layout" ∷ "tasklog" ∷ [])
      (λ v m text written. rw (save, written) refl)

-- A step that failed after it was completed.
abbrev failed_step : PlacedStep ℕ ℕ String
failed_step = record {
  props = record (step_of "alarm") { state = some error; is_keep_error = true };
  index = 2;
  is_completed_step = true;
  is_current_step = false;
  is_last_step = true;
}

abbrev stepper_props : StepperProps ℕ ℕ String
stepper_props = record {
  orientation = horizontal;
  state = none;
  responsive = true;
  check_icon = none;
  error_icon = none;
  on_click_step = none;
  expand_vertical_steps = false;
  initial_step = pos 2;
  steps = [];
  variant = none;
  scroll_tracking = false;
  children = [];
}
