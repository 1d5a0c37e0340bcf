-- ===== src/Apis/TaskInfoApi/Requests.antt =====
-- The requests of the methods that change tasks.
use open_task.Common.{◌≡◌, true, none}
use open_task.Js.Value.{has_distinct_keys}
use open_task.Js.Text.{Platform}
use open_task.Models.Codec.{given}
use open_task.Runtime.Config.{api_key}
use open_task.Runtime.Fetch.{no_overrides, BaseApi}
use open_task.Runtime.Fetch.Headers.{configured}
use open_task.Apis.Bodies.{Sends, call_with_body-Sends}
use open_task.Models.AddTaskRequest
use open_task.Models.AddTaskRequest.{AddTaskRequest}
use open_task.Models.DeleteTaskRequest
use open_task.Models.DeleteTaskRequest.{DeleteTaskRequest}
use open_task.Models.ExcuteOnceRequest
use open_task.Models.ExcuteOnceRequest.{ExcuteOnceRequest}
use open_task.Models.SwitchTaskStatusRequest
use open_task.Models.SwitchTaskStatusRequest.{SwitchTaskStatusRequest}
use open_task.Models.Responses.{
  add_task_response_base_response, delete_task_response_base_response,
  excute_once_response_base_response, switch_task_status_response_base_response,
}
use open_task.Apis.TaskInfoApi.{
  add_task_info_raw, delete_task_raw, excute_once_raw, switch_task_status_raw,
}

module _ {W : Type 0} (d : Platform) (api : BaseApi W) where
  -- For a well-typed model, a configuration without a key whose headers have distinct names, and no
  -- override, addTaskInfoRaw is the fetch of a POST to /api/TaskInfo/AddTaskInfo with the configured
  -- credentials, the JSON content type and the JSON text of an object from which the model's decoder
  -- reads the model back; the response is then judged by its status and left to the decoder of
  -- AddTaskResponseBaseResponse.
  pub add_task_info_raw-Sends :
      (m : AddTaskRequest)
      → AddTaskRequest.IsWellTyped m
      → api_key api.configuration ≡ none
      → has_distinct_keys (configured api.configuration) ≡ true
      → Sends d api "/api/TaskInfo/AddTaskInfo" "POST" AddTaskRequest.codec
          add_task_response_base_response m
          (λ fetch.
            add_task_info_raw d fetch api (record { add_task_request = given m }) no_overrides)
  unfolding add_task_info_raw
  add_task_info_raw-Sends m t no_key distinct =
      call_with_body-Sends d api "/api/TaskInfo/AddTaskInfo" "POST" AddTaskRequest.codec
        add_task_response_base_response m no_key distinct (AddTaskRequest.codec-Carries d m t)

  -- Deleting a task, with no key configured and no override,
  -- sends its id.
  pub delete_task_raw-Sends :
      (m : DeleteTaskRequest)
      → DeleteTaskRequest.IsWellTyped m
      → api_key api.configuration ≡ none
      → has_distinct_keys (configured api.configuration) ≡ true
      → Sends d api "/api/TaskInfo/DeleteTask" "DELETE" DeleteTaskRequest.codec
          delete_task_response_base_response m
          (λ fetch.
            delete_task_raw d fetch api (record { delete_task_request = given m }) no_overrides)
  unfolding delete_task_raw
  delete_task_raw-Sends m t no_key distinct =
      call_with_body-Sends d api "/api/TaskInfo/DeleteTask" "DELETE" DeleteTaskRequest.codec
        delete_task_response_base_response m no_key distinct (DeleteTaskRequest.codec-Carries d m t)

  -- Running a task once, with no key configured and no override,
  -- posts its id.
  pub excute_once_raw-Sends :
      (m : ExcuteOnceRequest)
      → ExcuteOnceRequest.IsWellTyped m
      → api_key api.configuration ≡ none
      → has_distinct_keys (configured api.configuration) ≡ true
      → Sends d api "/api/TaskInfo/ExcuteOnce" "POST" ExcuteOnceRequest.codec
          excute_once_response_base_response m
          (λ fetch.
            excute_once_raw d fetch api (record { excute_once_request = given m }) no_overrides)
  unfolding excute_once_raw
  excute_once_raw-Sends m t no_key distinct =
      call_with_body-Sends d api "/api/TaskInfo/ExcuteOnce" "POST" ExcuteOnceRequest.codec
        excute_once_response_base_response m no_key distinct (ExcuteOnceRequest.codec-Carries d m t)

  -- For a well-typed model, a configuration without a key whose headers have distinct names, and no
  -- override, switchTaskStatusRaw is the fetch of a POST to /api/TaskInfo/SwitchTaskStatus with the
  -- JSON content type and the JSON text of an object from which the decoder reads the same task and
  -- status; the response is then judged by its status and left to the decoder of
  -- SwitchTaskStatusResponseBaseResponse.
  pub switch_task_status_raw-Sends :
      (m : SwitchTaskStatusRequest)
      → SwitchTaskStatusRequest.IsWellTyped m
      → api_key api.configuration ≡ none
      → has_distinct_keys (configured api.configuration) ≡ true
      → Sends d api "/api/TaskInfo/SwitchTaskStatus" "POST" SwitchTaskStatusRequest.codec
          switch_task_status_response_base_response m
          (λ fetch.
            switch_task_status_raw d fetch api
              (record { switch_task_status_request = given m })
              no_overrides)
  unfolding switch_task_status_raw
  switch_task_status_raw-Sends m t no_key distinct =
      call_with_body-Sends d api "/api/TaskInfo/SwitchTaskStatus" "POST"
        SwitchTaskStatusRequest.codec switch_task_status_response_base_response m no_key distinct
        (SwitchTaskStatusRequest.codec-Carries d m t)
