-- ===== src/Pages/Toolbars.antt =====
-- The search of the tables of tasks and of logs: tool-bar.tsx of
-- ui/vite-opentask/src/pages/taskInfos/components and pages/taskLogs/components. What they call of the
-- table is the record `Table`; the nested form of a new task and the calendar are left out.
pub mod Searches
use open_task.Common.{
  ℕ, String, ◌==◌, ◌≡◌, Bool, false, not, Option, none, some, List, [], ◌∷◌, if◌then◌else◌, length,
  ltb,
}
use open_task.Js.Value.{Value, undefined, string, date, DateValue, truthy}
use open_task.Pages.Queries.{PaginationState, ColumnFilters, GlobalFilters, find_filter}

-- The table's operations on the states that the page gives to it, as documented: setting the page's
-- index keeps its size, a filter's value is found under its id, unless it is empty and so removed, and
-- resetting leaves no filter.
pub record Table : Type 0 where
  pub set_page_index : ℕ → PaginationState → PaginationState
  pub set_filter_value : String → Value → ColumnFilters → ColumnFilters
  pub reset_column_filters : ColumnFilters → ColumnFilters
  pub index_set : (i : ℕ) (p : PaginationState) → (set_page_index i p).page_index ≡ i
  pub size_kept : (i : ℕ) (p : PaginationState) → (set_page_index i p).page_size ≡ p.page_size
  pub value_set :
      (id text : String) (fs : ColumnFilters)
      → find_filter id (set_filter_value id (string text) fs)
        ≡ (if text == "" then undefined else string text)
  pub filters_reset : (fs : ColumnFilters) → reset_column_filters fs ≡ []

-- The states of a list's page that its toolbar changes, the keys of the queries asked to be read
-- again, and the toolbar's own states: the text typed, and the days chosen.
pub record ListPage : Type 0 where
  pub pagination : PaginationState
  pub column_filters : ColumnFilters
  pub global_filters : GlobalFilters
  pub invalidated : List String
  pub typed : String
  pub from : Value
  pub to : Value

abbrev pub no_filters : GlobalFilters
no_filters = record { task_id = undefined; start_time = undefined; end_time = undefined }

abbrev invalidate : String → ListPage → ListPage
invalidate key w = record w { invalidated = key ∷ w.invalidated }

module _ (table : Table) where
  -- `table.setPageIndex(0)`
  abbrev to_first_page : ListPage → ListPage
  to_first_page w = record w { pagination = table.set_page_index 0 w.pagination }

  -- `onSubmit` and `reset` of the tasks, and whether there is a button for the latter. The text of
  -- the input is the form's entry "name".
  unfoldable pub search_tasks : ListPage → ListPage
  search_tasks w =
      let w' = to_first_page (invalidate "listTaskInfos" w) in
      record w' {
        column_filters = table.set_filter_value "name" (string w.typed) w'.column_filters;
      }

  unfoldable pub reset_tasks : ListPage → ListPage
  reset_tasks w = record w {
    column_filters = table.reset_column_filters w.column_filters;
    typed = "";
  }

  unfoldable pub are_tasks_filtered : ListPage → Bool
  are_tasks_filtered w = ltb 0 (length w.column_filters)

  -- The same of the logs.
  unfoldable pub search_logs : ListPage → ListPage
  search_logs w =
      let w' = to_first_page (invalidate "listLogs" w) in
      record w' {
        global_filters = record { task_id = string w.typed; start_time = w.from; end_time = w.to };
      }

  unfoldable pub reset_logs : ListPage → ListPage
  reset_logs w = record w { global_filters = no_filters; typed = "" }

  unfoldable pub are_logs_filtered : ListPage → Bool
  are_logs_filtered w = truthy w.global_filters.task_id
