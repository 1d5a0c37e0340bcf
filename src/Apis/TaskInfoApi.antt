-- ===== src/Apis/TaskInfoApi.antt =====
-- ui/vite-opentask/src/apis-gen/apis/TaskInfoApi.ts
pub mod Requests
pub mod Listing
use open_task.Js.Value.{Value, Props, empty}
use open_task.Js.Text.{Platform}
use open_task.Js.Exception.{Response}
use open_task.Models.Codec.{Nullable}
use open_task.Models.BaseResponse.{BaseResponse}
use open_task.Runtime.Io.{Io}
use open_task.Runtime.Config.{FetchParams}
use open_task.Runtime.Fetch.{InitOverrides, BaseApi}
use open_task.Models.AddTaskRequest
use open_task.Models.AddTaskRequest.{AddTaskRequest}
use open_task.Models.DeleteTaskRequest
use open_task.Models.DeleteTaskRequest.{DeleteTaskRequest}
use open_task.Models.ExcuteOnceRequest
use open_task.Models.ExcuteOnceRequest.{ExcuteOnceRequest}
use open_task.Models.SwitchTaskStatusRequest
use open_task.Models.SwitchTaskStatusRequest.{SwitchTaskStatusRequest}
use open_task.Models.ListTaskInfosResponse.{ListTaskInfosResponse}
use open_task.Models.GetNext5TriggertimesResponse.{GetNext5TriggertimesResponse}
use open_task.Models.Responses.{
  add_task_response_base_response, delete_task_response_base_response,
  excute_once_response_base_response, switch_task_status_response_base_response,
  list_task_infos_response_base_response, get_next5_triggertimes_response_base_response,
}
use open_task.Apis.{ApiResponse, set_query, call_with_body, call_with_query, value_of}

pub record AddTaskInfoRequest : Type 0 where
  pub add_task_request : Nullable AddTaskRequest

pub record DeleteTaskOperationRequest : Type 0 where
  pub delete_task_request : Nullable DeleteTaskRequest

pub record ExcuteOnceOperationRequest : Type 0 where
  pub excute_once_request : Nullable ExcuteOnceRequest

pub record GetNext5TiggertimesRequest : Type 0 where
  pub task_id : Value

pub record ListTaskInfosRequest : Type 0 where
  pub name : Value
  pub page_number : Value
  pub page_size : Value

pub record SwitchTaskStatusOperationRequest : Type 0 where
  pub switch_task_status_request : Nullable SwitchTaskStatusRequest

-- `queryParameters` of `listTaskInfosRaw`
abbrev pub list_query : ListTaskInfosRequest → Props
list_query r =
    set_query "PageSize" r.page_size
      (set_query "PageNumber" r.page_number (set_query "Name" r.name empty))

module _ {W : Type 0} (d : Platform) (fetch : FetchParams → Io W Response) (api : BaseApi W) where
  unfoldable pub add_task_info_raw :
      AddTaskInfoRequest → InitOverrides W → Io W (ApiResponse (Nullable (BaseResponse Value)))
  unfolding call_with_body
  add_task_info_raw request_parameters =
      call_with_body d fetch api "/api/TaskInfo/AddTaskInfo" "POST" AddTaskRequest.codec
        add_task_response_base_response request_parameters.add_task_request

  unfoldable pub add_task_info :
      AddTaskInfoRequest → InitOverrides W → Io W (Nullable (BaseResponse Value))
  unfolding add_task_info_raw
  add_task_info request_parameters init_overrides =
      value_of (add_task_info_raw request_parameters init_overrides)

  unfoldable pub delete_task_raw :
      DeleteTaskOperationRequest
      → InitOverrides W
      → Io W (ApiResponse (Nullable (BaseResponse Value)))
  unfolding call_with_body
  delete_task_raw request_parameters =
      call_with_body d fetch api "/api/TaskInfo/DeleteTask" "DELETE" DeleteTaskRequest.codec
        delete_task_response_base_response request_parameters.delete_task_request

  unfoldable pub delete_task :
      DeleteTaskOperationRequest → InitOverrides W → Io W (Nullable (BaseResponse Value))
  unfolding delete_task_raw
  delete_task request_parameters init_overrides =
      value_of (delete_task_raw request_parameters init_overrides)

  unfoldable pub excute_once_raw :
      ExcuteOnceOperationRequest
      → InitOverrides W
      → Io W (ApiResponse (Nullable (BaseResponse Value)))
  unfolding call_with_body
  excute_once_raw request_parameters =
      call_with_body d fetch api "/api/TaskInfo/ExcuteOnce" "POST" ExcuteOnceRequest.codec
        excute_once_response_base_response request_parameters.excute_once_request

  unfoldable pub excute_once :
      ExcuteOnceOperationRequest → InitOverrides W → Io W (Nullable (BaseResponse Value))
  unfolding excute_once_raw
  excute_once request_parameters init_overrides =
      value_of (excute_once_raw request_parameters init_overrides)

  unfoldable pub switch_task_status_raw :
      SwitchTaskStatusOperationRequest
      → InitOverrides W
      → Io W (ApiResponse (Nullable (BaseResponse Value)))
  unfolding call_with_body
  switch_task_status_raw request_parameters =
      call_with_body d fetch api "/api/TaskInfo/SwitchTaskStatus" "POST"
        SwitchTaskStatusRequest.codec switch_task_status_response_base_response
        request_parameters.switch_task_status_request

  unfoldable pub switch_task_status :
      SwitchTaskStatusOperationRequest → InitOverrides W → Io W (Nullable (BaseResponse Value))
  unfolding switch_task_status_raw
  switch_task_status request_parameters init_overrides =
      value_of (switch_task_status_raw request_parameters init_overrides)

  unfoldable pub get_next5_tiggertimes_raw :
      GetNext5TiggertimesRequest
      → InitOverrides W
      → Io W (ApiResponse (Nullable (BaseResponse GetNext5TriggertimesResponse)))
  unfolding call_with_query
  get_next5_tiggertimes_raw request_parameters =
      call_with_query d fetch api "/api/TaskInfo/GetNext5Tiggertimes"
        get_next5_triggertimes_response_base_response
        (set_query "TaskId" request_parameters.task_id empty)

  unfoldable pub get_next5_tiggertimes :
      GetNext5TiggertimesRequest
      → InitOverrides W
      → Io W (Nullable (BaseResponse GetNext5TriggertimesResponse))
  unfolding get_next5_tiggertimes_raw
  get_next5_tiggertimes request_parameters init_overrides =
      value_of (get_next5_tiggertimes_raw request_parameters init_overrides)

  unfoldable pub list_task_infos_raw :
      ListTaskInfosRequest
      → InitOverrides W
      → Io W (ApiResponse (Nullable (BaseResponse ListTaskInfosResponse)))
  unfolding call_with_query
  list_task_infos_raw request_parameters =
      call_with_query d fetch api "/api/TaskInfo/ListTaskInfos"
        list_task_infos_response_base_response (list_query request_parameters)

  unfoldable pub list_task_infos :
      ListTaskInfosRequest → InitOverrides W → Io W (Nullable (BaseResponse ListTaskInfosResponse))
  unfolding list_task_infos_raw
  list_task_infos request_parameters init_overrides =
      value_of (list_task_infos_raw request_parameters init_overrides)
