-- ===== src/Apis/DashboardApi.antt =====
-- ui/vite-opentask/src/apis-gen/apis/DashboardApi.ts
pub mod TopTaskLog
use open_task.Common as Results
use open_task.Common.{String, ok, if◌then◌else◌}
use open_task.Js.Value.{Value, Props, empty, is_nullish}
use open_task.Js.Exception.{Result, required_error}
use open_task.Js.Text.{Platform}
use open_task.Js.Exception.{Response}
use open_task.Models.Codec.{Nullable}
use open_task.Models.BaseResponse.{BaseResponse}
use open_task.Runtime.Io.{Io, raise, lift, ◌>>=◌}
use open_task.Runtime.Config.{FetchParams}
use open_task.Runtime.Fetch.{InitOverrides, BaseApi}
use open_task.Models.ListTopTaskLogResponse.{ListTopTaskLogResponse}
use open_task.Models.StatisticsResponse.{StatisticsResponse}
use open_task.Models.TaskLogsDayTrendResponse.{TaskLogsDayTrendResponse}
use open_task.Models.Responses.{
  list_top_task_log_response_base_response, statistics_response_base_response,
  task_logs_day_trend_response_base_response,
}
use open_task.Apis.{ApiResponse, set_query, set_date_query, call_with_query, value_of}

pub record TaskLogsDayTrendRequest : Type 0 where
  pub start : Value
  pub end : Value

pub record TopTaskLogRequest : Type 0 where
  pub start : Value
  pub end : Value
  pub count : Value

abbrev pub start_required : String
start_required = "Required parameter \"start\" was null or undefined when calling topTaskLog()."

abbrev pub end_required : String
end_required = "Required parameter \"end\" was null or undefined when calling topTaskLog()."

-- `queryParameters` of `taskLogsDayTrendRaw`
abbrev pub span_query : Platform → Value → Value → Result Props
span_query d start end =
    Results.◌>>=◌ (set_date_query d "Start" start empty) (set_date_query d "End" end)

-- `queryParameters` of `topTaskLogRaw`
abbrev pub top_query : Platform → TopTaskLogRequest → Result Props
top_query d r =
    Results.◌>>=◌ (span_query d r.start r.end) (λ span. ok (set_query "Count" r.count span))

module _ {W : Type 0} (d : Platform) (fetch : FetchParams → Io W Response) (api : BaseApi W) where
  unfoldable pub statistics_raw :
      InitOverrides W → Io W (ApiResponse (Nullable (BaseResponse StatisticsResponse)))
  unfolding call_with_query
  statistics_raw =
      call_with_query d fetch api "/api/Dashboard/Statistics" statistics_response_base_response
        empty

  unfoldable pub statistics : InitOverrides W → Io W (Nullable (BaseResponse StatisticsResponse))
  unfolding statistics_raw
  statistics init_overrides = value_of (statistics_raw init_overrides)

  unfoldable pub task_logs_day_trend_raw :
      TaskLogsDayTrendRequest
      → InitOverrides W
      → Io W (ApiResponse (Nullable (BaseResponse TaskLogsDayTrendResponse)))
  unfolding call_with_query
  task_logs_day_trend_raw request_parameters init_overrides = do
    query ← lift (span_query d request_parameters.start request_parameters.end)
    call_with_query d fetch api "/api/Dashboard/TaskLogsDayTrend"
        task_logs_day_trend_response_base_response query init_overrides

  unfoldable pub task_logs_day_trend :
      TaskLogsDayTrendRequest
      → InitOverrides W
      → Io W (Nullable (BaseResponse TaskLogsDayTrendResponse))
  unfolding task_logs_day_trend_raw
  task_logs_day_trend request_parameters init_overrides =
      value_of (task_logs_day_trend_raw request_parameters init_overrides)

  unfoldable pub top_task_log_raw :
      TopTaskLogRequest
      → InitOverrides W
      → Io W (ApiResponse (Nullable (BaseResponse ListTopTaskLogResponse)))
  unfolding call_with_query
  top_task_log_raw request_parameters init_overrides =
      if is_nullish request_parameters.start
      then raise (required_error "start" start_required)
      else if is_nullish request_parameters.end
      then raise (required_error "end" end_required)
      else (do
        query ← lift (top_query d request_parameters)
        call_with_query d fetch api "/api/Dashboard/TopTaskLog"
            list_top_task_log_response_base_response query init_overrides)

  unfoldable pub top_task_log :
      TopTaskLogRequest → InitOverrides W → Io W (Nullable (BaseResponse ListTopTaskLogResponse))
  unfolding top_task_log_raw
  top_task_log request_parameters init_overrides =
      value_of (top_task_log_raw request_parameters init_overrides)
