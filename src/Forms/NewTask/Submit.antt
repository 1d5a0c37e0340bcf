-- ===== src/Forms/NewTask/Submit.antt =====
-- What a submission of the form sends, and what the page becomes.
use open_task.Common.{
  eq_iff, ◌==◌, Bool-cases, inl, inr, arith, List, [], String, Bool, ◌<>◌, ◌≡◌, refl, true, false,
  Option, some, ok, ◌∙◌, ◌∷◌, sym, subst,
}
use open_task.Js.Value.{Value, undefined, string, Props, get_prop, truthy}
use open_task.Js.Text.{Platform}
use open_task.Js.Exception.{Exception, Response}
use open_task.Models.Codec.{given, is_string, is_number, is_boolean, IsOptional}
use open_task.Models.BaseResponse.{BaseResponse}
use open_task.Models.TaskInfo
use open_task.Models.AddTaskRequest
use open_task.Models.AddTaskRequest.{AddTaskRequest}
use open_task.Models.Responses.{add_task_response_base_response}
use open_task.Runtime.Io.{Io}
use open_task.Runtime.Config.{FetchParams, api_key}
use open_task.Runtime.Fetch.{new_api, no_overrides}
use open_task.Apis.Bodies.{Sends}
use open_task.Apis.TaskInfoApi.{add_task_info, add_task_info_raw}
use open_task.Apis.TaskInfoApi.Requests.{add_task_info_raw-Sends}
use open_task.AppConfig.{config}
use open_task.Forms.{Page, Mutations, success, set_loading, set_open, invalidate, show, console}
use open_task.Forms.Calls.{Answers, call_answered}
use open_task.Forms.NewTask.{
  FieldSchema, text, number, number_to, field_of, is_of, Library, Accepted, required_schema,
  task_schema, as_task_info, mutation, mutation_fn, on_success, on_submit, submit,
}

IsOptional_undefined : (test : Value → Bool) (v : Value) → v ≡ undefined → IsOptional test v
IsOptional_undefined test v e = subst (IsOptional test) (sym e) tt

field_typed :
    (fields : List (String × FieldSchema)) (ps : Props) (k : String) (s : FieldSchema)
    → Accepted fields ps
    → field_of fields k ≡ some s
    → IsOptional (is_of s) (get_prop ps k)
field_typed [] ps k s h e = absurd (cc e)
field_typed ((j, s') ∷ fields) ps k s h e = elim (Bool-cases (j == k)) [
  | inl same ↦
      let found : s' ≡ s = ground (arith, e, same) in
      subst (λ i. IsOptional (is_of s) (get_prop ps i)) ((eq_iff j k).0 same)
        (subst (λ t. IsOptional (is_of t) (get_prop ps j)) found h.0)
  | inr other ↦ field_typed fields ps k s h.1 (ground (arith, e, other))
]

module _ {N : Type 0} (library : Library (Page N)) (values accepted : Props)
    (valid : library.resolve required_schema values ≡ some accepted) where
  -- What the schema accepts of the form's values is a task as the interface TaskInfo declares it:
  -- each property is undefined or of its declared type.
  as_task_info-IsWellTyped : TaskInfo.IsWellTyped (as_task_info accepted)
  unfolding as_task_info required_schema task_schema
  as_task_info-IsWellTyped =
      let typed = λ (k : String) (s : FieldSchema).
        field_typed required_schema.fields accepted k s
          (library.typed required_schema values accepted valid) in
      let absent = λ (k : String). library.only_fields required_schema values accepted k valid in
      record {
        id = IsOptional_undefined is_string _ (absent "id" refl);
        appid = typed "appid" (text 2) refl;
        name = typed "name" (text 2) refl;
        handler = typed "handler" (text 2) refl;
        description = typed "description" (text 2) refl;
        time_type = typed "timeType" (text 2) refl;
        time_conf = typed "timeConf" (text 2) refl;
        attempt_interval = typed "attemptInterval" number refl;
        attempt_max = typed "attemptMax" (number_to 10 2) refl;
        handle_params = typed "handleParams" (text 0) refl;
        schedule_mode = typed "scheduleMode" (text 2) refl;
        alarm_type = typed "alarmType" (text 2) refl;
        alarm_content = IsOptional_undefined is_string _ (absent "alarmContent" refl);
        enabled = IsOptional_undefined is_boolean _ (absent "enabled" refl);
        trigger_next_time = IsOptional_undefined is_string _ (absent "triggerNextTime" refl);
        slot = IsOptional_undefined is_number _ (absent "slot" refl);
      }

  alarm_content_undefined : (as_task_info accepted).alarm_content ≡ undefined
  unfolding as_task_info required_schema task_schema
  alarm_content_undefined =
      library.only_fields required_schema values accepted "alarmContent" valid refl

  module _ (d : Platform) (platform_message : Exception → String)
      (get_item : N → String → Option String) (api_url : String)
      (fetch : FetchParams → Io N Response) where
    request : AddTaskRequest
    request = record { task = given (as_task_info accepted) }

    sends :
        Sends d
          (console get_item api_url)
          "/api/TaskInfo/AddTaskInfo"
          "POST"
          AddTaskRequest.codec
          add_task_response_base_response
          request
          (λ fetch.
            add_task_info_raw d fetch
              (console get_item api_url)
              (record { add_task_request = given request })
              no_overrides)
    unfolding api_key console config new_api request
    sends =
        add_task_info_raw-Sends d (console get_item api_url) request
          (record { task = as_task_info-IsWellTyped }) refl refl

    -- When the schema accepts the form's values, and the network answers the request to add the
    -- accepted task by a 200 with JSON from which the client reads an envelope of success, the page
    -- shows the message of success, asks for the tasks to be read again, closes the dialog, is no
    -- longer loading and changes nothing else but the browser; and the task has no content for its
    -- alarm, whatever was typed as its webhook.
    pub submit_granted :
        (m : Mutations (Page N)) (w : Page N) (n : N) (response : Response) (json : Value)
        (answer : BaseResponse Value)
        → Answers d fetch
            (api_url <> ("/api/TaskInfo/AddTaskInfo" <> ""))
            "POST"
            AddTaskRequest.codec
            (record { task = given (as_task_info accepted) })
            w.browser
            (ok response)
            n
        → response.status ≡ 200
        → response.json ≡ some json
        → add_task_response_base_response.from_json json ≡ ok (given answer)
        → truthy answer.success ≡ true
        → (submit d platform_message get_item api_url fetch m library values w ≡ record w {
          browser = n;
          notices = success (string "创建成功") ∷ w.notices;
          invalidated = "listTaskInfos" ∷ w.invalidated;
          is_loading = false;
          is_open = false;
        })
          × ((as_task_info accepted).alarm_content ≡ undefined)
    unfolding submit on_submit mutation mutation_fn on_success add_task_info request
    submit_granted m w n response json answer h fine body decoded succeeds =
        let loading = set_loading true w in
        (
          library.submits required_schema _ values accepted w valid
              ∙ m.resolves (mutation d platform_message get_item api_url fetch)
                  (as_task_info accepted) (given answer) w (record loading { browser = n })
                  (set_open false (
                    invalidate "listTaskInfos"
                      (show (success (string "创建成功")) (record loading { browser = n }))))
                  (call_answered get_item d api_url sends fetch loading n response json h fine body
                    ∙ rw decoded)
                  (rw succeeds),
          alarm_content_undefined,
        )
