-- ===== src/Apis/TaskLogApi/Listing.antt =====
-- The request for a page of the log.
use open_task.Common.{String, ◌≡◌, refl, none, ok, List, [], ◌∷◌, arith}
use open_task.Common.Int.{ℤ}
use open_task.Js.Value.{Value, string, date, time, set_prop}
use open_task.Js.Text.{Platform}
use open_task.Models.Codec.{is_string, is_number, IsOptional}
use open_task.Runtime.Config.{api_key}
use open_task.Runtime.Fetch.{no_overrides, BaseApi}
use open_task.Apis.Queries.{
  Asks, asked, call_with_query-Asks, asked-IsFlat, string_primitive, number_primitive,
}
use open_task.Models.Responses.{lis_task_logs_response_base_response}
use open_task.Apis.TaskLogApi.{list_logs_query, list_logs_raw}

list_logs_query-asked :
    (d : Platform) (task page size : Value) (start end : ℤ)
    → list_logs_query d (record {
      task_id = task;
      start_time = date (time start);
      end_time = date (time end);
      page_number = page;
      page_size = size;
    })
      ≡ ok (
          asked (
            ("TaskId", task)
            ∷ ("StartTime", string (d.iso start))
            ∷ ("EndTime", string (d.iso end))
            ∷ ("PageNumber", page)
            ∷ ("PageSize", size)
            ∷ []))
unfolding set_prop
list_logs_query-asked d task page size start end = ground arith

-- For two times, a task that is a text or absent, a page and a size that are numbers or absent, a
-- configuration with neither a key nor a stringifier of its own, and no override, listLogsRaw is the
-- fetch of a GET of /api/TaskLog/ListLogs from whose URL a server reads the task, the ISO texts of
-- the times, the page and the size, without those that are absent.
pub list_logs_raw-Asks :
    {W : Type 0} (d : Platform) (api : BaseApi W) (task page size : Value) (start end : ℤ)
    → api_key api.configuration ≡ none
    → api.configuration.query_params_stringify ≡ none
    → IsOptional is_string task
    → IsOptional is_number page
    → IsOptional is_number size
    → Asks d api "/api/TaskLog/ListLogs"
        (lis_task_logs_response_base_response d)
        (asked (
          ("TaskId", task)
          ∷ ("StartTime", string (d.iso start))
          ∷ ("EndTime", string (d.iso end))
          ∷ ("PageNumber", page)
          ∷ ("PageSize", size)
          ∷ []))
        (λ fetch.
          list_logs_raw d fetch api
            (record {
              task_id = task;
              start_time = date (time start);
              end_time = date (time end);
              page_number = page;
              page_size = size;
            })
            no_overrides)
unfolding list_logs_raw
list_logs_raw-Asks d api task page size start end no_key own given_task given_page given_size =
    let paged : List (String × Value) = ("PageNumber", page) ∷ ("PageSize", size) ∷ [] in
    let dated : List (String × Value) =
      ("StartTime", string (d.iso start)) ∷ ("EndTime", string (d.iso end)) ∷ paged in
    let flat =
      asked-IsFlat (("PageSize", size) ∷ []) "PageNumber" page
        (asked-IsFlat [] "PageSize" size tt (number_primitive size given_size))
        (number_primitive page given_page) in
    rw (list_logs_query-asked d task page size start end) (
      call_with_query-Asks d api "/api/TaskLog/ListLogs" (lis_task_logs_response_base_response d)
        (asked (("TaskId", task) ∷ dated)) no_key own
        (asked-IsFlat dated "TaskId" task (refl, (refl, flat)) (string_primitive task given_task)))
