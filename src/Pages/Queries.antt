-- ===== src/Pages/Queries.antt =====
-- What the pages of tasks, logs and clients ask for, under which key of the query's cache, and what
-- they render: index.tsx of ui/vite-opentask/src/pages/taskInfos, pages/taskLogs and pages/clients,
-- and the hook of ui/vite-opentask/src/apis/index.tsx.
pub mod Keys
pub mod Answers
use open_task.Common.{
  ℕ, ◌+◌, String, ◌==◌, Bool, Option, none, some, List, [], ◌∷◌, not, if◌then◌else◌, ok, throw,
}
use open_task.Common.Int.{ℤ, pos}
use open_task.Js.Value.{
  Value, undefined, number, string, array, object, Elems, nil, cons, empty, prop, truthy,
}
use open_task.Js.Exception.{Exception, Result, type_error, is_error}
use open_task.Models.Codec.{Nullable, missing, nulled, given}
use open_task.Models.BaseResponse.{BaseResponse}
use open_task.Models.ListTaskInfosResponse.{ListTaskInfosResponse}
use open_task.Models.LisTaskLogsResponse.{LisTaskLogsResponse}
use open_task.Models.ListClientsResponse.{ListClientsResponse}
use open_task.Models.TaskInfo.{TaskInfo}
use open_task.Models.TaskLog.{TaskLog}
use open_task.Models.ExecutorClient.{ExecutorClient}
use open_task.Apis.TaskInfoApi.{ListTaskInfosRequest}
use open_task.Apis.TaskLogApi.{ListLogsRequest}
use open_task.Apis.ClientApi.{ListClientsRequest}
use open_task.Forms.{message}

pub record PaginationState : Type 0 where
  pub page_index : ℕ
  pub page_size : ℕ

-- `useState<PaginationState>({ pageIndex: 0, pageSize: 10 })`
abbrev pub first_page : PaginationState
first_page = record { page_index = 0; page_size = 10 }

-- A `ColumnFiltersState`: the filters' ids and values.
abbrev pub ColumnFilters : Type 0
ColumnFilters = List (String × Value)

-- `columnFilters.find((x) => x.id == id)?.value`
unfoldable pub find_filter : String → ColumnFilters → Value
find_filter id [] = undefined
find_filter id ((i, value) ∷ rest) = if i == id then value else find_filter id rest

-- The state `globalFilters` of the logs.
pub record GlobalFilters : Type 0 where
  pub task_id : Value
  pub start_time : Value
  pub end_time : Value

-- The arguments of the calls.
unfoldable pub task_infos_request : PaginationState → ColumnFilters → ListTaskInfosRequest
unfolding find_filter
task_infos_request pagination column_filters = record {
  name = find_filter "name" column_filters;
  page_number = number (pos (pagination.page_index + 1));
  page_size = number (pos pagination.page_size);
}

unfoldable pub logs_request : PaginationState → GlobalFilters → ListLogsRequest
logs_request pagination global_filters = record {
  task_id = global_filters.task_id;
  start_time = global_filters.start_time;
  end_time = global_filters.end_time;
  page_number = number (pos (pagination.page_index + 1));
  page_size = number (pos pagination.page_size);
}

unfoldable pub clients_request : PaginationState → ListClientsRequest
clients_request pagination = record {
  page_number = number (pos (pagination.page_index + 1));
  page_size = number (pos pagination.page_size);
}

-- The states as values of a key.
unfoldable pub pagination_value : PaginationState → Value
pagination_value p = object (
    prop "pageIndex" (number (pos p.page_index)) (prop "pageSize" (number (pos p.page_size)) empty))

unfoldable pub filter_elems : ColumnFilters → Elems
filter_elems [] = nil
filter_elems ((i, value) ∷ rest) =
    cons (object (prop "id" (string i) (prop "value" value empty))) (filter_elems rest)

unfoldable pub global_value : GlobalFilters → Value
global_value g =
    object
      (prop "taskId" g.task_id (prop "startTime" g.start_time (prop "endTime" g.end_time empty)))

-- The `queryKey`s.
unfoldable pub task_infos_key : PaginationState → ColumnFilters → Value
unfolding pagination_value filter_elems
task_infos_key pagination column_filters = array (
    cons (string "listTaskInfos")
      (cons (pagination_value pagination) (cons (array (filter_elems column_filters)) nil)))

unfoldable pub logs_key : PaginationState → ColumnFilters → GlobalFilters → Value
unfolding pagination_value filter_elems global_value
logs_key pagination column_filters global_filters = array (
    cons (string "listLogs") (
      cons (pagination_value pagination)
        (cons (array (filter_elems column_filters)) (cons (global_value global_filters) nil))))

unfoldable pub clients_key : PaginationState → Value
clients_key pagination = array (cons (string "listClients") nil)

-- The key of `useTaskInfos`, whose call takes the request as it is.
unfoldable pub use_task_infos_key : ListTaskInfosRequest → Value
use_task_infos_key request =
    array (cons (string "listTaskInfos") (cons request.page_number (cons request.page_size nil)))

-- The result of `useQuery` that the pages read; of `status` only whether it is "pending".
pub record QueryResult (R : Type 0) : Type 0 where
  pub is_pending : Bool
  pub error : Option Exception
  pub answer : Nullable (BaseResponse R)

-- What a page renders: "Loading...", a message, the table of some rows of a total, or nothing.
pub data PageView (Row : Type 0) : Type 0 where
  loading : PageView Row
  text : Value → PageView Row
  table : List (Nullable Row) → Option ℤ → PageView Row
  blank : PageView Row

-- `data || []`, in the table
abbrev pub or_empty : {A : Type 0} → Nullable (List A) → List A
or_empty (given rows) = rows
or_empty missing = []
or_empty nulled = []

-- `parseInt`, none for NaN, and the messages of the platform's errors are parameters.
module _ (parse_int : Value → Option ℤ) (platform_message : Exception → String) {R Row : Type 0}
    (count : R → Value) (rows : R → Nullable (List (Nullable Row))) where
  -- The table of `data!.result!`: a TypeError without a result.
  unfoldable pub list_table : Nullable R → Result (PageView Row)
  list_table missing = throw type_error
  list_table nulled = throw type_error
  list_table (given result) = ok (table (or_empty (rows result)) (parse_int (count result)))

  -- `!data!.success ? data?.message : …`
  unfoldable pub answered_view : Nullable (BaseResponse R) → Result (PageView Row)
  unfolding list_table
  answered_view missing = throw type_error
  answered_view nulled = throw type_error
  answered_view (given answer) =
      if not (truthy answer.success) then ok (text answer.message) else list_table answer.result

  -- `data!.result!.rows! && …`
  unfoldable pub rows_view : Nullable (BaseResponse R) → Result (PageView Row)
  rows_view missing = throw type_error
  rows_view nulled = throw type_error
  rows_view (given answer) = elim (answer.result) [
    | missing ↦ throw type_error
    | nulled ↦ throw type_error
    | given result ↦ elim (rows result) [
      | missing ↦ ok blank
      | nulled ↦ ok blank
      | given shown ↦ ok (table shown (parse_int (count result)))
    ]
  ]

  -- `error instanceof Error ? error.message : …`
  unfoldable pub settled_view :
      (Nullable (BaseResponse R) → Result (PageView Row)) → QueryResult R → Result (PageView Row)
  unfolding message
  settled_view otherwise q = elim (q.error) [
    | none ↦ otherwise q.answer
    | some e ↦
        if is_error e
        then elim (message platform_message e) [ ok m ↦ ok (text m) | throw x ↦ throw x ]
        else otherwise q.answer
  ]

  unfoldable pub page_view :
      (Nullable (BaseResponse R) → Result (PageView Row)) → QueryResult R → Result (PageView Row)
  unfolding settled_view
  page_view otherwise q = if q.is_pending then ok loading else settled_view otherwise q

module _ (parse_int : Value → Option ℤ) (platform_message : Exception → String) where
  -- `TaskInfos`, `TaskLogs` and `Clients`
  unfoldable pub task_infos_view : QueryResult ListTaskInfosResponse → Result (PageView TaskInfo)
  unfolding page_view answered_view
  task_infos_view =
      page_view parse_int platform_message (λ r. r.count) (λ r. r.rows)
        (answered_view parse_int platform_message (λ r. r.count) (λ r. r.rows))

  unfoldable pub task_logs_view : QueryResult LisTaskLogsResponse → Result (PageView TaskLog)
  unfolding page_view answered_view
  task_logs_view =
      page_view parse_int platform_message (λ r. r.count) (λ r. r.rows)
        (answered_view parse_int platform_message (λ r. r.count) (λ r. r.rows))

  unfoldable pub clients_view : QueryResult ListClientsResponse → Result (PageView ExecutorClient)
  unfolding page_view rows_view
  clients_view =
      page_view parse_int platform_message (λ r. r.count) (λ r. r.rows)
        (rows_view parse_int platform_message (λ r. r.count) (λ r. r.rows))
