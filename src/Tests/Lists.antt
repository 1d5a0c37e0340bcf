-- ===== src/Tests/Lists.antt =====
-- The page of tasks, over a network that grants or is overloaded.
use open_task.Common.{◌≡◌, refl, true, false, Option, none, some, [], ◌∷◌, ok, throw}
use open_task.Common.Int.{ℤ, pos}
use open_task.Js.Value.{
  Props, cons, Value, undefined, boolean, string, object, array, nil, empty, prop,
}
use open_task.Js.Exception.{Response, thrown, type_error}
use open_task.Models.Codec.{given, missing, write_list}
use open_task.Models.BaseResponse.{BaseResponse}
use open_task.Models.ListTaskInfosResponse
use open_task.Models.ListTaskInfosResponse.{ListTaskInfosResponse}
use open_task.Runtime.Config.{FetchParams}
use open_task.Runtime.Io.{Io}
use open_task.Runtime.Fetch.{new_api, no_overrides}
use open_task.Apis.TaskInfoApi.{list_task_infos}
use open_task.AppConfig.{config}
use open_task.Pages.Queries.{first_page, task_infos_request, task_infos_view, table}
use open_task.Models.TaskInfo
use open_task.Models.TaskInfo.{TaskInfo}
use open_task.Js.Json.{wire}
use open_task.Pages.Queries.{ColumnFilters, PaginationState}
use open_task.Pages.Queries.Answers.{
  later_filter, by_name, no_filter, task_infos_shown, task_infos_refused,
}
use open_task.Tests.Samples.{platform, api_url, read_item, Storage}
use open_task.Tests.Forms.{answered, granting, no_message}

-- A page of one task that has a name only, encoded, and the object around it.
abbrev one_task : TaskInfo
one_task = record {
  id = undefined;
  appid = undefined;
  name = string "backup";
  handler = undefined;
  description = undefined;
  time_type = undefined;
  time_conf = undefined;
  attempt_interval = undefined;
  attempt_max = undefined;
  handle_params = undefined;
  schedule_mode = undefined;
  alarm_type = undefined;
  alarm_content = undefined;
  enabled = undefined;
  trigger_next_time = undefined;
  slot = undefined;
}

abbrev list_result : ListTaskInfosResponse
list_result = record { count = string "12"; rows = given (given one_task ∷ []) }

abbrev list_sent : Value
list_sent = object (
    prop "count" (string "12")
      (prop "rows" (array (cons (object (TaskInfo.sent one_task)) nil)) empty))

abbrev list_answer : Props
list_answer = prop "success" (boolean true) (prop "result" (wire platform list_sent) empty)

-- `parseInt` of the texts that occur.
abbrev parse_int : Value → Option ℤ
parse_int v = some (pos 12)

-- The second page, of the tasks that have "back" in their names.
abbrev named : ColumnFilters
named = ("status", string "1") ∷ ("name", string "back") ∷ []

abbrev second_page : PaginationState
second_page = record { page_index = 1; page_size = 10 }

one_task-IsWellTyped : TaskInfo.IsWellTyped one_task
one_task-IsWellTyped = record {
  id = tt;
  appid = tt;
  name = refl;
  handler = tt;
  description = tt;
  time_type = tt;
  time_conf = tt;
  attempt_interval = tt;
  attempt_max = tt;
  handle_params = tt;
  schedule_mode = tt;
  alarm_type = tt;
  alarm_content = tt;
  enabled = tt;
  trigger_next_time = tt;
  slot = tt;
}

task_infos_shown_example :
    (answer : BaseResponse ListTaskInfosResponse) × (list_task_infos platform
        (granting (object list_answer))
        (new_api (config read_item api_url))
        (task_infos_request second_page named)
        no_overrides
        none
      ≡ (ok (given answer), none))
    × (task_infos_view parse_int no_message
          (record { is_pending = false; error = none; answer = given answer })
        ≡ ok (table (given one_task ∷ []) (some (pos 12))))
unfolding ListTaskInfosResponse.to_json TaskInfo.codec TaskInfo.to_json write_list
task_infos_shown_example =
    task_infos_shown platform no_message parse_int read_item api_url (granting (object list_answer))
      second_page named (string "back")
      (later_filter "status" (string "1") (string "back") (("name", string "back") ∷ []) refl
        (by_name (string "back") []))
      refl none none (answered (object list_answer)) (λ p asks. refl) list_answer list_result
      (given one_task ∷ []) list_sent refl refl refl refl refl
      (record { count = refl; rows = (one_task-IsWellTyped, tt) }) refl

abbrev unavailable : Response
unavailable = record { status = 503; json = none }

abbrev overloaded : FetchParams → Io Storage Response
overloaded p n = (ok unavailable, n)

task_infos_refused_example :
    (list_task_infos platform overloaded
        (new_api (config read_item api_url))
        (task_infos_request first_page [])
        no_overrides
        none
      ≡ (throw (thrown undefined), none))
    × (task_infos_view parse_int no_message
          (record { is_pending = false; error = some (thrown undefined); answer = missing })
        ≡ throw type_error)
task_infos_refused_example =
    task_infos_refused platform no_message parse_int read_item api_url overloaded first_page []
      undefined no_filter tt none none unavailable (λ p asks. refl) refl
