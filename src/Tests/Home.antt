-- ===== src/Tests/Home.antt =====
-- The ranking of the home page, over a network that grants, and the menu of the visible columns.
use open_task.Common.{
  String, Bool, ◌==◌, ◌&&◌, if◌then◌else◌, ◌≡◌, refl, true, false, none, [], ◌∷◌, ok,
}
use open_task.Common.Int.{pos, ◌-ℤ◌}
use open_task.Js.Value.{Props, Value, boolean, string, time, object, array, of_list, empty, prop}
use open_task.Js.Json.{wire}
use open_task.Models.Codec.{given, write_list}
use open_task.Models.BaseResponse.{BaseResponse}
use open_task.Models.TopTaskLog
use open_task.Models.TopTaskLog.{TopTaskLog}
use open_task.Models.ListTopTaskLogResponse
use open_task.Models.ListTopTaskLogResponse.{ListTopTaskLogResponse}
use open_task.Runtime.Fetch.{new_api, no_overrides}
use open_task.Apis.DashboardApi.{top_task_log}
use open_task.AppConfig.{config}
use open_task.Pages.Home.{LocalDays, top_request, shows, task_log_top}
use open_task.Pages.Home.Rankings.{top_tasks_shown}
use open_task.Pages.Visibility.{Column, Visibility, hide, choose, view_options, unsorted}
use open_task.Tests.Samples.{platform, api_url, read_item}
use open_task.Tests.Forms.{answered, granting}

-- The days of one month, each a unit of time.
abbrev days : LocalDays
days = record { get_date = λ t. t; set_date = λ t n. time n }

abbrev backup : TopTaskLog
backup = record {
  task_id = string "7";
  name = string "backup";
  description = string "every night";
  count = string "120";
}

-- The encoded tasks, and the object around them.
abbrev ranking_result : Value
ranking_result = object (
    prop "data"
      (array (
        of_list (
          object (
            prop "taskId" (string "7") (
              prop "name" (string "backup")
                (prop "description" (string "every night") (prop "count" (string "120") empty))))
          ∷ [])))
      empty)

abbrev ranking_answer : Props
ranking_answer = prop "success" (boolean true) (prop "result" ranking_result empty)

top_tasks_shown_example :
    (answer : BaseResponse ListTopTaskLogResponse) × (top_task_log platform
        (granting (object ranking_answer))
        (new_api (config read_item api_url))
        (top_request days (pos 20) (pos 21))
        no_overrides
        none
      ≡ (ok (given answer), none))
    × (task_log_top (record { is_pending = false; error = none; answer = given answer })
        ≡ ok (
            shows (
              record {
                key = string "7";
                heading = string "#" ∷ string "7" ∷ string " " ∷ string "backup" ∷ [];
                description = string "every night";
                times = string "120" ∷ string "次" ∷ [];
              }
              ∷ [])))
unfolding ListTopTaskLogResponse.to_json TopTaskLog.codec TopTaskLog.to_json write_list wire ◌-ℤ◌
top_tasks_shown_example =
    top_tasks_shown platform days read_item api_url (granting (object ranking_answer)) (pos 20)
      (pos 21) (pos 10) refl none none (answered (object ranking_answer)) (λ p asks. refl)
      ranking_answer (backup ∷ []) ranking_result refl refl refl refl refl
      (record { task_id = refl; name = refl; description = refl; count = refl }, tt)

-- A state of which ids are visible, without a sorting.
abbrev toggle : Column → Bool → (String → Bool) → String → Bool
toggle c value s i = if c.can_hide && (i == c.id) then value else s i

abbrev columns_state : Visibility (String → Bool)
columns_state = record {
  is_visible = λ c s. s c.id;
  toggle_visibility = toggle;
  is_sorted = λ c s. unsorted;
  toggle_sorting = λ c down s. s;
  toggled = λ c other value s. refl;
}

abbrev column : String → Column
column id = record { id = id; is_accessor = true; can_hide = true; can_sort = true }

hidden_column :
    view_options columns_state
      (column "id" ∷ column "name" ∷ [])
      (choose columns_state hide (column "name") (λ i. true))
    ≡ ("id", true) ∷ ("name", false) ∷ []
unfolding view_options choose
hidden_column = refl
