-- ===== src/Apis/TaskLogApi.antt =====
-- ui/vite-opentask/src/apis-gen/apis/TaskLogApi.ts
pub mod Listing
use open_task.Common as Results
use open_task.Common.{ok}
use open_task.Js.Value.{Value, Props, empty}
use open_task.Js.Exception.{Result}
use open_task.Js.Text.{Platform}
use open_task.Js.Exception.{Response}
use open_task.Models.Codec.{Nullable}
use open_task.Models.BaseResponse.{BaseResponse}
use open_task.Runtime.Io.{Io, lift, ◌>>=◌}
use open_task.Runtime.Config.{FetchParams}
use open_task.Runtime.Fetch.{InitOverrides, BaseApi}
use open_task.Models.LisTaskLogsResponse.{LisTaskLogsResponse}
use open_task.Models.Responses.{lis_task_logs_response_base_response}
use open_task.Apis.{ApiResponse, set_query, set_date_query, call_with_query, value_of}

pub record ListLogsRequest : Type 0 where
  pub task_id : Value
  pub start_time : Value
  pub end_time : Value
  pub page_number : Value
  pub page_size : Value

-- `queryParameters` of `listLogsRaw`
abbrev pub list_logs_query : Platform → ListLogsRequest → Result Props
list_logs_query d r =
    Results.◌>>=◌ (set_date_query d "StartTime" r.start_time (set_query "TaskId" r.task_id empty))
      (λ since.
        Results.◌>>=◌ (set_date_query d "EndTime" r.end_time since) (λ span.
          ok (set_query "PageSize" r.page_size (set_query "PageNumber" r.page_number span))))

module _ {W : Type 0} (d : Platform) (fetch : FetchParams → Io W Response) (api : BaseApi W) where
  unfoldable pub list_logs_raw :
      ListLogsRequest
      → InitOverrides W
      → Io W (ApiResponse (Nullable (BaseResponse LisTaskLogsResponse)))
  unfolding call_with_query
  list_logs_raw request_parameters init_overrides = do
    query ← lift (list_logs_query d request_parameters)
    call_with_query d fetch api "/api/TaskLog/ListLogs" (lis_task_logs_response_base_response d)
        query init_overrides

  unfoldable pub list_logs :
      ListLogsRequest → InitOverrides W → Io W (Nullable (BaseResponse LisTaskLogsResponse))
  unfolding list_logs_raw
  list_logs request_parameters init_overrides =
      value_of (list_logs_raw request_parameters init_overrides)
