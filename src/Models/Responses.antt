-- ===== src/Models/Responses.antt =====
-- The envelopes of ui/vite-opentask/src/apis-gen/models/*BaseResponse.ts, one for each type of result.
pub mod Arrivals
use open_task.Js.Value.{Value}
use open_task.Js.Text.{Platform}
use open_task.Models.Codec.{Codec}
use open_task.Models.BaseResponse
use open_task.Models.BaseResponse.{BaseResponse}
use open_task.Models.LoginResponse
use open_task.Models.LoginResponse.{LoginResponse}
use open_task.Models.StatisticsResponse
use open_task.Models.StatisticsResponse.{StatisticsResponse}
use open_task.Models.TaskLogsDayTrendResponse
use open_task.Models.TaskLogsDayTrendResponse.{TaskLogsDayTrendResponse}
use open_task.Models.ListTopTaskLogResponse
use open_task.Models.ListTopTaskLogResponse.{ListTopTaskLogResponse}
use open_task.Models.LisTaskLogsResponse
use open_task.Models.LisTaskLogsResponse.{LisTaskLogsResponse}
use open_task.Models.ListClientsResponse
use open_task.Models.ListClientsResponse.{ListClientsResponse}
use open_task.Models.ListTaskInfosResponse
use open_task.Models.ListTaskInfosResponse.{ListTaskInfosResponse}
use open_task.Models.GetNext5TriggertimesResponse
use open_task.Models.GetNext5TriggertimesResponse.{GetNext5TriggertimesResponse}

unfoldable pub add_task_response_base_response : Codec (BaseResponse Value)
add_task_response_base_response = BaseResponse.codec BaseResponse.raw

unfoldable pub delete_task_response_base_response : Codec (BaseResponse Value)
delete_task_response_base_response = BaseResponse.codec BaseResponse.raw

unfoldable pub excute_once_response_base_response : Codec (BaseResponse Value)
excute_once_response_base_response = BaseResponse.codec BaseResponse.raw

unfoldable pub switch_task_status_response_base_response : Codec (BaseResponse Value)
switch_task_status_response_base_response = BaseResponse.codec BaseResponse.raw

unfoldable pub login_response_base_response : Codec (BaseResponse LoginResponse)
login_response_base_response = BaseResponse.codec LoginResponse.codec

unfoldable pub statistics_response_base_response : Codec (BaseResponse StatisticsResponse)
statistics_response_base_response = BaseResponse.codec StatisticsResponse.codec

unfoldable pub task_logs_day_trend_response_base_response :
    Codec (BaseResponse TaskLogsDayTrendResponse)
task_logs_day_trend_response_base_response = BaseResponse.codec TaskLogsDayTrendResponse.codec

unfoldable pub list_top_task_log_response_base_response :
    Codec (BaseResponse ListTopTaskLogResponse)
list_top_task_log_response_base_response = BaseResponse.codec ListTopTaskLogResponse.codec

unfoldable pub list_task_infos_response_base_response : Codec (BaseResponse ListTaskInfosResponse)
list_task_infos_response_base_response = BaseResponse.codec ListTaskInfosResponse.codec

unfoldable pub get_next5_triggertimes_response_base_response :
    Codec (BaseResponse GetNext5TriggertimesResponse)
get_next5_triggertimes_response_base_response =
    BaseResponse.codec GetNext5TriggertimesResponse.codec

module _ (d : Platform) where
  unfoldable pub lis_task_logs_response_base_response : Codec (BaseResponse LisTaskLogsResponse)
  lis_task_logs_response_base_response = BaseResponse.codec (LisTaskLogsResponse.codec d)

  unfoldable pub list_clients_response_base_response : Codec (BaseResponse ListClientsResponse)
  list_clients_response_base_response = BaseResponse.codec (ListClientsResponse.codec d)
