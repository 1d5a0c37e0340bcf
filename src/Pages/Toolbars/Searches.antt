-- ===== src/Pages/Toolbars/Searches.antt =====
-- What a search asks for.
use open_task.Common.{◌==◌, ◌≡◌, refl, ◌∷◌, if◌then◌else◌}
use open_task.Common.Int.{pos}
use open_task.Js.Value.{undefined, string, number}
use open_task.Pages.Queries.{find_filter, task_infos_request, logs_request}
use open_task.Pages.Toolbars.{
  Table, ListPage, search_tasks, reset_tasks, search_logs, reset_logs, no_filters,
}

module _ (table : Table) (w : ListPage) where
  -- After a search of the tasks the page asks for the first page, of the same size, of the tasks with
  -- the name that was typed, or of all tasks if none was, also if the answer is in the cache; and
  -- after a reset it asks for tasks of any name, and the input is empty.
  pub tasks_searched :
      let s = search_tasks table w in
      (task_infos_request s.pagination s.column_filters ≡ record {
        name = if w.typed == "" then undefined else string w.typed;
        page_number = number (pos 1);
        page_size = number (pos w.pagination.page_size);
      })
      × (s.invalidated ≡ "listTaskInfos" ∷ w.invalidated)
      × ((task_infos_request
            (reset_tasks table s).pagination
            (reset_tasks table s).column_filters).name
          ≡ undefined)
      × ((reset_tasks table s).typed ≡ "")
  unfolding search_tasks reset_tasks task_infos_request find_filter
  tasks_searched = (
    rw (
      table.value_set "name" w.typed w.column_filters,
      table.index_set 0 w.pagination,
      table.size_kept 0 w.pagination,
    ),
    refl,
    rw (table.filters_reset (table.set_filter_value "name" (string w.typed) w.column_filters)),
    refl,
  )

  -- After a search of the logs the page asks for the first page, of the same size, of the logs of the
  -- task and the days that were chosen; after a reset it asks for all logs again, and a further search
  -- for those days still.
  pub logs_searched :
      let s = search_logs table w in
      let again = search_logs table (reset_logs table s) in
      (logs_request s.pagination s.global_filters ≡ record {
        task_id = string w.typed;
        start_time = w.from;
        end_time = w.to;
        page_number = number (pos 1);
        page_size = number (pos w.pagination.page_size);
      })
      × ((reset_logs table s).global_filters ≡ no_filters)
      × (again.global_filters
          ≡ record { task_id = string ""; start_time = w.from; end_time = w.to })
  unfolding search_logs reset_logs logs_request
  logs_searched = (rw (table.index_set 0 w.pagination, table.size_kept 0 w.pagination), refl, refl)
