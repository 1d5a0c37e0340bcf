-- ===== src/Tests/Requests.antt =====
-- Calls of the client, from the console's configuration.
use open_task.Common.{String, ◌≡◌, refl, true, false, ok, [], ◌∷◌, ◌↔◌}
use open_task.Common.Int.{pos, negsuc}
use open_task.Js.Value.{undefined, boolean, number, string, date, time, empty, prop}
use open_task.Js.Uri.{codes, encode_uri_component}
use open_task.Js.Uri.Decode.{bytes, percent_decode, plain, decode-encode_all}
use open_task.Models.Codec.{given}
use open_task.Runtime.Query.{querystring}
use open_task.Runtime.Query.Parse.{parse_query, entries, parse_query-querystring}
use open_task.Runtime.Mime.{is_json_mime}
use open_task.Runtime.Mime.Types.{IsJsonMime}
use open_task.Runtime.Mime.Accepted.{is_json_mime-IsJsonMime}
use open_task.Runtime.Config.{api_key}
use open_task.Runtime.Fetch.{no_overrides, new_api}
use open_task.Apis.Bodies.{Sends}
use open_task.Apis.Queries.{Asks, asked}
use open_task.Models.AddTaskRequest
use open_task.Models.LoginCommand
use open_task.Models.LoginCommand.{LoginCommand}
use open_task.Models.SwitchTaskStatusRequest.{SwitchTaskStatusRequest}
use open_task.Models.Responses.{
  add_task_response_base_response, login_response_base_response,
  list_task_infos_response_base_response, lis_task_logs_response_base_response,
}
use open_task.Apis.TaskInfoApi.{add_task_info_raw, list_task_infos_raw, ListTaskInfosRequest}
use open_task.Apis.TaskInfoApi.Requests.{add_task_info_raw-Sends}
use open_task.Apis.TaskInfoApi.Listing.{parameters, list_task_infos_raw-Asks}
use open_task.Apis.UserApi.{login_raw}
use open_task.Apis.UserApi.Requests.{login_raw-Sends}
use open_task.Apis.TaskLogApi.{list_logs_raw}
use open_task.Apis.TaskLogApi.Listing.{list_logs_raw-Asks}
use open_task.AppConfig.{config}
use open_task.Tests.Samples.{platform, console}
use open_task.Tests.Models.{add_request, add_request-IsWellTyped}

add_task_info_raw-Sends_example :
    Sends platform console "/api/TaskInfo/AddTaskInfo" "POST" AddTaskRequest.codec
      add_task_response_base_response add_request
      (λ fetch.
        add_task_info_raw platform fetch console
          (record { add_task_request = given add_request })
          no_overrides)
unfolding console config api_key new_api
add_task_info_raw-Sends_example =
    add_task_info_raw-Sends platform console add_request add_request-IsWellTyped refl refl

abbrev switch_off : SwitchTaskStatusRequest
switch_off = record { task_id = string "7f3a"; enabled = boolean false }

abbrev credentials : LoginCommand
credentials = record { user_name = string "admin"; password = string "a\"b" }

login_raw-Sends_example :
    Sends platform console "/api/User/Login" "POST" LoginCommand.codec login_response_base_response
      credentials
      (λ fetch.
        login_raw platform fetch console
          (record { login_command = given credentials })
          no_overrides)
unfolding console config api_key new_api
login_raw-Sends_example =
    login_raw-Sends platform console credentials (record { user_name = refl; password = refl }) refl
      refl

abbrev second_page : ListTaskInfosRequest
second_page = record { name = string "a&b"; page_number = number (pos 2); page_size = undefined }

list_task_infos_raw-Asks_example :
    Asks platform console "/api/TaskInfo/ListTaskInfos" list_task_infos_response_base_response
      (parameters second_page)
      (λ fetch. list_task_infos_raw platform fetch console second_page no_overrides)
unfolding console config api_key new_api
list_task_infos_raw-Asks_example =
    list_task_infos_raw-Asks platform console second_page refl refl refl refl tt

list_logs_raw-Asks_example :
    Asks platform console "/api/TaskLog/ListLogs"
      (lis_task_logs_response_base_response platform)
      (asked (
        ("TaskId", undefined)
        ∷ ("StartTime", string (platform.iso (negsuc 3)))
        ∷ ("EndTime", string (platform.iso (pos 4)))
        ∷ ("PageNumber", number (pos 1))
        ∷ ("PageSize", number (pos 10))
        ∷ []))
      (λ fetch.
        list_logs_raw platform fetch console
          (record {
            task_id = undefined;
            start_time = date (time (negsuc 3));
            end_time = date (time (pos 4));
            page_number = number (pos 1);
            page_size = number (pos 10);
          })
          no_overrides)
unfolding console config api_key new_api
list_logs_raw-Asks_example =
    list_logs_raw-Asks platform console undefined (number (pos 1)) (number (pos 10)) (negsuc 3)
      (pos 4) refl refl tt refl refl

parse_query-querystring_example :
    (q : String) × (querystring platform
        (prop "Name" (string "a&b=c") (prop "PageSize" (number (pos 20)) empty))
        ""
      ≡ ok q)
    × (parse_query (codes q)
        ≡ entries platform (prop "Name" (string "a&b=c") (prop "PageSize" (number (pos 20)) empty)))
parse_query-querystring_example =
    parse_query-querystring platform "Name" (string "a&b=c")
      (prop "PageSize" (number (pos 20)) empty) (refl, (refl, tt))

decode-encode_all_example :
    percent_decode plain (codes (encode_uri_component "é&=%")) ≡ bytes "é&=%"
decode-encode_all_example = decode-encode_all "é&=%"

abbrev vendor_json : String
vendor_json = "application/vnd.api+json"

is_json_mime-IsJsonMime_example : (is_json_mime vendor_json ≡ true) ↔ IsJsonMime (codes vendor_json)
is_json_mime-IsJsonMime_example = is_json_mime-IsJsonMime vendor_json
