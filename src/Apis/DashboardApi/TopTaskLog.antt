-- ===== src/Apis/DashboardApi/TopTaskLog.antt =====
-- The request for the tasks that ran most.
use open_task.Common.{String, ◌≡◌, refl, none, true, false, ok, throw, List, [], ◌∷◌, arith}
use open_task.Common.Int.{ℤ}
use open_task.Js.Value.{Value, string, date, time, set_prop, is_nullish}
use open_task.Js.Text.{Platform}
use open_task.Js.Exception.{required_error, Response}
use open_task.Models.Codec.{is_number, IsOptional}
use open_task.Runtime.Io.{Io}
use open_task.Runtime.Config.{api_key, FetchParams}
use open_task.Runtime.Fetch.{no_overrides, InitOverrides, BaseApi}
use open_task.Apis.Queries.{Asks, asked, call_with_query-Asks, asked-IsFlat, number_primitive}
use open_task.Models.Responses.{list_top_task_log_response_base_response}
use open_task.Apis.DashboardApi.{
  TopTaskLogRequest, top_query, top_task_log_raw, start_required, end_required,
}

module _ {W : Type 0} (d : Platform) (api : BaseApi W) where
  -- topTaskLogRaw without a start rejects with the RequiredError of start, and with a start but
  -- without an end with that of end; in both cases the world is as before, so nothing was fetched.
  top_task_log_raw-required :
      (fetch : FetchParams → Io W Response) (r : TopTaskLogRequest) (init : InitOverrides W) (w : W)
      → (is_nullish r.start ≡ true
          → top_task_log_raw d fetch api r init w
            ≡ (throw (required_error "start" start_required), w))
        × (is_nullish r.start ≡ false
            → is_nullish r.end ≡ true
            → top_task_log_raw d fetch api r init w
              ≡ (throw (required_error "end" end_required), w))
  unfolding top_task_log_raw
  top_task_log_raw-required fetch r init w = (λ h. rw h refl, λ g h. rw (g, h) refl)

  top_query-asked :
      (start end : ℤ) (count : Value)
      → top_query d (record { start = date (time start); end = date (time end); count = count })
        ≡ ok (
            asked (
              ("Start", string (d.iso start))
              ∷ ("End", string (d.iso end))
              ∷ ("Count", count)
              ∷ []))
  unfolding set_prop
  top_query-asked start end count = ground arith

  -- For two times, a count that is a number or absent, a configuration with neither a key nor a
  -- stringifier of its own, and no override, topTaskLogRaw is the fetch of a GET of
  -- /api/Dashboard/TopTaskLog from whose URL a server reads the ISO texts of the times, and the
  -- count if it is given.
  pub top_task_log_raw-Asks :
      (start end : ℤ) (count : Value)
      → api_key api.configuration ≡ none
      → api.configuration.query_params_stringify ≡ none
      → IsOptional is_number count
      → Asks d api "/api/Dashboard/TopTaskLog" list_top_task_log_response_base_response
          (asked
            (("Start", string (d.iso start)) ∷ ("End", string (d.iso end)) ∷ ("Count", count) ∷ []))
          (λ fetch.
            top_task_log_raw d fetch api
              (record { start = date (time start); end = date (time end); count = count })
              no_overrides)
  unfolding top_task_log_raw
  top_task_log_raw-Asks start end count no_key own counted =
      let rest : List (String × Value) = ("Count", count) ∷ [] in
      rw (top_query-asked start end count) (
        call_with_query-Asks d api "/api/Dashboard/TopTaskLog"
          list_top_task_log_response_base_response
          (asked (("Start", string (d.iso start)) ∷ ("End", string (d.iso end)) ∷ rest)) no_key own
          (refl, (refl, asked-IsFlat [] "Count" count tt (number_primitive count counted))))
