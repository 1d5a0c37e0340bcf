-- ===== src/Forms/SwitchEnable/Clicks.antt =====
-- What clicks of a task's switch ask for, and what it shows.
use open_task.Common.{String, ◌<>◌, ◌≡◌, refl, true, false, Option, some, ok, Bool, not, ◌∙◌, ◌∷◌}
use open_task.Js.Value.{Value, string, boolean, truthy}
use open_task.Js.Text.{Platform}
use open_task.Js.Exception.{Exception, Response}
use open_task.Models.Codec.{given}
use open_task.Models.BaseResponse.{BaseResponse}
use open_task.Models.SwitchTaskStatusRequest
use open_task.Models.SwitchTaskStatusRequest.{SwitchTaskStatusRequest}
use open_task.Models.Responses.{switch_task_status_response_base_response}
use open_task.Runtime.Io.{Io}
use open_task.Runtime.Config.{FetchParams, api_key}
use open_task.Runtime.Fetch.{new_api, no_overrides}
use open_task.Apis.Bodies.{Sends}
use open_task.Apis.TaskInfoApi.{switch_task_status, switch_task_status_raw}
use open_task.Apis.TaskInfoApi.Requests.{switch_task_status_raw-Sends}
use open_task.AppConfig.{config}
use open_task.Forms.{Page, Mutations, console}
use open_task.Forms.Calls.{Answers, call_answered}
use open_task.Forms.SwitchEnable.{
  Enabled, request_of, mutation, mutation_fn, on_success, on_checked_change,
}

not-not : (b : Bool) → not (not b) ≡ b
not-not true = refl
not-not false = refl

module _ {N : Type 0} (d : Platform) (platform_message : Exception → String)
    (get_item : N → String → Option String) (api_url : String) (fetch : FetchParams → Io N Response)
    (m : Mutations (Page N)) (props : Enabled) where
  -- The request for the status that is not the property's.
  abbrev switched : SwitchTaskStatusRequest
  switched = record { task_id = string props.id; enabled = boolean (not props.enabled) }

  sends :
      Sends d
        (console get_item api_url)
        "/api/TaskInfo/SwitchTaskStatus"
        "POST"
        SwitchTaskStatusRequest.codec
        switch_task_status_response_base_response
        switched
        (λ fetch.
          switch_task_status_raw d fetch
            (console get_item api_url)
            (record { switch_task_status_request = given switched })
            no_overrides)
  unfolding api_key console config new_api request_of
  sends =
      switch_task_status_raw-Sends d (console get_item api_url) switched
        (record { task_id = refl; enabled = refl }) refl refl

  -- The network, in the state `n`, answers the request for the status that is not the property's by a
  -- 200 with JSON from which the client reads an envelope of success.
  pub record Grants (n n' : N) : Type 0 where
    pub response : Response
    pub json : Value
    pub answer : BaseResponse Value
    pub answers :
        Answers d fetch
          (api_url <> ("/api/TaskInfo/SwitchTaskStatus" <> ""))
          "POST"
          SwitchTaskStatusRequest.codec
          switched
          n
          (ok response)
          n'
    pub fine : response.status ≡ 200
    pub body : response.json ≡ some json
    pub decoded : switch_task_status_response_base_response.from_json json ≡ ok (given answer)
    pub succeeds : truthy answer.success ≡ true

  -- A click that the network grants turns the switch, asks for the tasks to be read again, and
  -- changes nothing else but the browser.
  pub on_checked_change_granted :
      (w : Page N) (n : N)
      → Grants w.browser n
      → on_checked_change d platform_message get_item api_url fetch m props w ≡ record w {
        browser = n;
        invalidated = "listTaskInfos" ∷ w.invalidated;
        is_open = not w.is_open;
      }
  unfolding on_checked_change mutation mutation_fn on_success switch_task_status request_of
  on_checked_change_granted w n g =
      m.resolves (mutation d platform_message get_item api_url fetch w.is_open) props
        (given g.answer) w (record w { browser = n }) _
        (call_answered get_item d api_url sends fetch w n g.response g.json g.answers g.fine g.body
          ∙ rw (g.decoded))
        (rw (g.succeeds))

  -- When the network grants, twice in a row, the request for the status that is not the one of the
  -- switch's property, two clicks without a new property leave the switch as it was, although both
  -- asked for the same status.
  pub on_checked_change_twice :
      (w : Page N) (n n' : N)
      → Grants w.browser n
      → Grants n n'
      → let click = on_checked_change d platform_message get_item api_url fetch m props in
        ((click (click w)).browser ≡ n') × ((click (click w)).is_open ≡ w.is_open)
  on_checked_change_twice w n n' g g' =
      let w₁ = record w {
        browser = n;
        invalidated = "listTaskInfos" ∷ w.invalidated;
        is_open = not w.is_open;
      } in
      rw (on_checked_change_granted w n g, on_checked_change_granted w₁ n' g')
        (refl, not-not w.is_open)
