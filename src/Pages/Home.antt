-- ===== src/Pages/Home.antt =====
-- What the home page asks for and renders: base-statistics.tsx, tasklog-daytrend.tsx and
-- tasklog-top.tsx of ui/vite-opentask/src/pages/home/components. The days of the local calendar are
-- the platform's, a parameter; the charts are left out but for their data.
pub mod Rankings
use open_task.Common.{String, List, [], ◌∷◌, if◌then◌else◌, ok, throw, ◌>>=◌}
use open_task.Common.Int.{ℤ, pos, ◌-ℤ◌}
use open_task.Js.Value.{Value, undefined, number, string, date, DateValue, time, nil, cons, array}
use open_task.Js.Exception.{Result, type_error}
use open_task.Models.Codec.{Nullable, missing, nulled, given}
use open_task.Models.BaseResponse.{BaseResponse}
use open_task.Models.StatisticInfos.{StatisticInfos}
use open_task.Models.StatisticsResponse.{StatisticsResponse}
use open_task.Models.TaskLogDayTrend.{TaskLogDayTrend}
use open_task.Models.TaskLogsDayTrendResponse.{TaskLogsDayTrendResponse}
use open_task.Models.TopTaskLog.{TopTaskLog}
use open_task.Models.ListTopTaskLogResponse.{ListTopTaskLogResponse}
use open_task.Apis.DashboardApi.{TaskLogsDayTrendRequest, TopTaskLogRequest}
use open_task.Pages.Queries.{QueryResult, or_empty}

-- `getDate` and `setDate` of the date at a time.
pub record LocalDays : Type 0 where
  pub get_date : ℤ → ℤ
  pub set_date : ℤ → ℤ → DateValue

-- `day1.setDate(day1.getDate() - 10)`, for the time of the rendering
unfoldable pub ten_days_before : LocalDays → ℤ → DateValue
ten_days_before days rendered = days.set_date rendered (days.get_date rendered -ℤ pos 10)

-- The arguments of the calls, at the time of the call.
unfoldable pub day_trend_request : LocalDays → ℤ → ℤ → TaskLogsDayTrendRequest
unfolding ten_days_before
day_trend_request days rendered called = record {
  start = date (ten_days_before days rendered);
  end = date (time called);
}

unfoldable pub top_request : LocalDays → ℤ → ℤ → TopTaskLogRequest
unfolding ten_days_before
top_request days rendered called = record {
  start = date (ten_days_before days rendered);
  end = date (time called);
  count = number (pos 15);
}

-- The `queryKey`s, which do not tell one span from another.
abbrev pub statistics_key : Value
statistics_key = array (cons (string "statistics") nil)

abbrev pub day_trend_key : Value
day_trend_key = array (cons (string "taskLogsDayTrend") nil)

abbrev pub top_key : Value
top_key = array (cons (string "topTaskLog") nil)

-- `value?.field` of a nullable value, itself nullable.
abbrev pub chain : {A B : Type 0} → Nullable A → (A → Nullable B) → Nullable B
chain missing f = missing
chain nulled f = missing
chain (given a) f = f a

-- `infos?.count`
abbrev pub count_of : Nullable StatisticInfos → Value
count_of missing = undefined
count_of nulled = undefined
count_of (given infos) = infos.count

-- What is rendered while the query is pending, a text, or else.
pub data HomeView (A : Type 0) : Type 0 where
  waiting : String → HomeView A
  shows : A → HomeView A

-- `BaseStatistics`: the titles of the cards and their numbers.
unfoldable pub base_statistics : QueryResult StatisticsResponse → HomeView (List (String × Value))
base_statistics q =
    let result = chain q.answer (λ r. r.result) in
    if q.is_pending
    then waiting "Loading..."
    else shows (
        ("任务数量", count_of (chain result (λ r. r.task_infos)))
        ∷ ("调度次数", count_of (chain result (λ r. r.task_logs)))
        ∷ ("执行器数", count_of (chain result (λ r. r.workers)))
        ∷ ("节点数量", count_of (chain result (λ r. r.servers)))
        ∷ [])

-- `TaskLogsDayTrend`: the data of the chart.
unfoldable pub task_logs_day_trend :
    QueryResult TaskLogsDayTrendResponse → HomeView (List (Nullable TaskLogDayTrend))
task_logs_day_trend q =
    if q.is_pending
    then waiting ""
    else shows (or_empty (chain (chain q.answer (λ r. r.result)) (λ r. r.data_rows)))

-- One task of the ranking: its key, and the texts that stand beside each other.
pub record RankedTask : Type 0 where
  pub key : Value
  pub heading : List Value
  pub description : Value
  pub times : List Value

abbrev pub ranked : TopTaskLog → RankedTask
ranked x = record {
  key = x.task_id;
  heading = string "#" ∷ x.task_id ∷ string " " ∷ x.name ∷ [];
  description = x.description;
  times = x.count ∷ string "次" ∷ [];
}

-- `data?.result?.data?.map(...)`: a TypeError at an item that is missing or null.
unfoldable pub ranked_tasks : List (Nullable TopTaskLog) → Result (List RankedTask)
ranked_tasks [] = ok []
ranked_tasks (missing ∷ rest) = throw type_error
ranked_tasks (nulled ∷ rest) = throw type_error
ranked_tasks (given x ∷ rest) = do tasks ← ranked_tasks rest; ok (ranked x ∷ tasks)

-- `TaskLogTop`
unfoldable pub task_log_top :
    QueryResult ListTopTaskLogResponse → Result (HomeView (List RankedTask))
unfolding ranked_tasks
task_log_top q =
    let tasks =
      ranked_tasks (or_empty (chain (chain q.answer (λ r. r.result)) (λ r. r.data_rows))) in
    if q.is_pending then ok (waiting "") else tasks >>= (λ ranking. ok (shows ranking))
