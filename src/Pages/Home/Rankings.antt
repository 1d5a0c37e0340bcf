-- ===== src/Pages/Home/Rankings.antt =====
-- The ranking of the home page, from the answer of the network to what is rendered.
use open_task.Common.{
  All, true, String, ◌≡◌, refl, false, Option, none, some, ok, throw, eqb, ◌∙◌, List, [], ◌∷◌, map,
}
use open_task.Common.Int.{ℤ, pos, ◌-ℤ◌}
use open_task.Js.Value.{
  Props, object, boolean, get_prop, Value, undefined, string, number, time, get_prop-set_prop,
}
use open_task.Js.Text.{Platform}
use open_task.Js.Exception.{Response, thrown}
use open_task.Models.Codec.{missing, given, IsEach}
use open_task.Models.BaseResponse
use open_task.Models.TopTaskLog
use open_task.Models.ListTopTaskLogResponse
use open_task.Js.Json.{wire}
use open_task.Models.BaseResponse.{BaseResponse, succeeded, from_json_succeeded}
use open_task.Models.TopTaskLog.{TopTaskLog}
use open_task.Models.ListTopTaskLogResponse.{ListTopTaskLogResponse}
use open_task.Models.Responses.{list_top_task_log_response_base_response}
use open_task.Runtime.Io.{Io}
use open_task.Runtime.Config.{FetchParams, api_key, base_path}
use open_task.Runtime.Fetch.{new_api, no_overrides}
use open_task.Apis.Queries.{Asks, asked}
use open_task.Apis.DashboardApi.{top_task_log, top_task_log_raw}
use open_task.Apis.DashboardApi.TopTaskLog.{top_task_log_raw-Asks}
use open_task.AppConfig.{config, stored_token, authorized}
use open_task.AppConfig.Answers.{value_of_answered, value_of_refused}
use open_task.Pages.Queries.Answers.{AsksFor}
use open_task.Pages.Home.{
  LocalDays, ten_days_before, top_request, shows, ranked, ranked_tasks, task_log_top,
}

ranked_tasks-map : (xs : List TopTaskLog) → ranked_tasks (map given xs) ≡ ok (map ranked xs)
unfolding ranked_tasks
ranked_tasks-map [] = refl
ranked_tasks-map (x ∷ xs) = rw (ranked_tasks-map xs) refl

IsEach-given :
    (xs : List TopTaskLog)
    → All TopTaskLog.IsWellTyped xs
    → IsEach TopTaskLog.IsWellTyped (map given xs)
IsEach-given [] h = tt
IsEach-given (x ∷ xs) h = (h.0, IsEach-given xs h.1)

module _ {W : Type 0} (d : Platform) (days : LocalDays) (get_item : W → String → Option String)
    (api_url : String) (fetch : FetchParams → Io W Response) (rendered called start : ℤ)
    (begins : days.set_date rendered (days.get_date rendered -ℤ pos 10) ≡ time start) (w w₂ : W)
    (response : Response)
    (answers : (p : FetchParams)
      → AsksFor d api_url "/api/Dashboard/TopTaskLog"
          (asked (
            ("Start", string (d.iso start))
            ∷ ("End", string (d.iso called))
            ∷ ("Count", number (pos 15))
            ∷ []))
          p
      → fetch p w ≡ (ok response, w₂)) where
  asks :
      Asks d
        (new_api (config get_item api_url))
        "/api/Dashboard/TopTaskLog"
        list_top_task_log_response_base_response
        (asked (
          ("Start", string (d.iso start))
          ∷ ("End", string (d.iso called))
          ∷ ("Count", number (pos 15))
          ∷ []))
        (λ fetch.
          top_task_log_raw d fetch
            (new_api (config get_item api_url))
            (top_request days rendered called)
            no_overrides)
  unfolding api_key config new_api top_request ten_days_before
  asks = rw begins (
      top_task_log_raw-Asks d (new_api (config get_item api_url)) start called (number (pos 15))
        refl refl refl)

  abbrev request : FetchParams
  request = authorized get_item (stored_token get_item w) asks.params

  fetched : fetch request w ≡ (ok response, w₂)
  unfolding authorized config new_api base_path
  fetched = answers request (record {
    suffix = asks.suffix;
    goes_to = asks.goes_to;
    says = asks.says;
    by_method = get_prop-set_prop _ _ _ _ ∙ asks.by_method;
  })

  -- When the day of the month of the rendering less ten is the date of a time, and the network
  -- answers the GET of /api/Dashboard/TopTaskLog from that time to the time of the call, with the
  -- count 15, by a 200 with an object whose success is true and whose result is the JSON of well-
  -- typed tasks, the call resolves with an envelope of which the home page ranks exactly these
  -- tasks, in their order: under the id of each, a # with its id and its name, its description, and
  -- its count.
  pub top_tasks_shown :
      (ps : Props) (tasks : List TopTaskLog) (sent : Value)
      → response.status ≡ 200
      → response.json ≡ some (object ps)
      → get_prop ps "success" ≡ boolean true
      → get_prop ps "result" ≡ wire d sent
      → ListTopTaskLogResponse.to_json (given (record { data_rows = given (map given tasks) }))
        ≡ ok sent
      → All TopTaskLog.IsWellTyped tasks
      → (answer : BaseResponse ListTopTaskLogResponse) × (top_task_log d fetch
            (new_api (config get_item api_url))
            (top_request days rendered called)
            no_overrides
            w
          ≡ (ok (given answer), w₂))
        × (task_log_top (record { is_pending = false; error = none; answer = given answer })
            ≡ ok (
                shows (
                  map
                    (λ x. record {
                      key = x.task_id;
                      heading = string "#" ∷ x.task_id ∷ string " " ∷ x.name ∷ [];
                      description = x.description;
                      times = x.count ∷ string "次" ∷ [];
                    })
                    tasks)))
  unfolding top_task_log task_log_top list_top_task_log_response_base_response BaseResponse.codec
      ListTopTaskLogResponse.codec
  top_tasks_shown ps tasks sent fine body succeeds arrived encoded typed =
      let page : ListTopTaskLogResponse = record { data_rows = given (map given tasks) } in
      (
        succeeded ps page,
        value_of_answered get_item api_url fetch list_top_task_log_response_base_response
              (λ fetch.
                top_task_log_raw d fetch (new_api (config get_item api_url))
                  (top_request days rendered called) no_overrides)
              asks.params asks.calls response (object ps) w w₂ fetched fine body
            ∙ rw
                (from_json_succeeded d ListTopTaskLogResponse.codec
                  (ListTopTaskLogResponse.codec-IsLawful d) ps page sent succeeds arrived encoded
                  (record { data_rows = IsEach-given tasks typed }))
                refl,
        rw (ranked_tasks-map tasks) refl,
      )

  -- When the network answers by another status, the call rejects with undefined, and the ranking is
  -- that of no tasks.
  top_tasks_refused :
      eqb response.status 200 ≡ false
      → (top_task_log d fetch
            (new_api (config get_item api_url))
            (top_request days rendered called)
            no_overrides
            w
          ≡ (throw (thrown undefined), w₂))
        × (task_log_top
              (record { is_pending = false; error = some (thrown undefined); answer = missing })
            ≡ ok (shows []))
  unfolding top_task_log task_log_top ranked_tasks
  top_tasks_refused other = (
    value_of_refused get_item api_url fetch list_top_task_log_response_base_response
        (λ fetch.
          top_task_log_raw d fetch (new_api (config get_item api_url))
            (top_request days rendered called) no_overrides)
        asks.params asks.calls response w w₂ fetched other,
    refl,
  )
