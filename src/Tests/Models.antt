-- ===== src/Tests/Models.antt =====
-- A task, a page of tasks and the envelope around it, and the credentials of a login.
use open_task.Common.{refl, true, [], ◌∷◌}
use open_task.Common.Int.{pos, negsuc}
use open_task.Js.Value.{undefined, boolean, number, string, date, time, array, cons, nil}
use open_task.Models.Codec.{given, missing}
use open_task.Models.Codec.RoundTrip.{Carries}
use open_task.Models.BaseResponse
use open_task.Models.BaseResponse.{BaseResponse}
use open_task.Models.TaskInfo
use open_task.Models.TaskInfo.{TaskInfo}
use open_task.Models.AddTaskRequest
use open_task.Models.AddTaskRequest.{AddTaskRequest}
use open_task.Models.ListTaskInfosResponse
use open_task.Models.ListTaskInfosResponse.{ListTaskInfosResponse}
use open_task.Models.ListClientsResponse.{ListClientsResponse}
use open_task.Models.StatisticInfos
use open_task.Models.StatisticInfos.{StatisticInfos}
use open_task.Models.StatisticsResponse.{StatisticsResponse}
use open_task.Models.Responses.Arrivals.{list_task_infos-Arrives}
use open_task.Tests.Samples.{platform}

abbrev pub task : TaskInfo
task = record {
  id = string "7f3a";
  appid = undefined;
  name = string "nightly report";
  handler = string "report";
  description = undefined;
  time_type = string "cron";
  time_conf = string "0 0 * * *";
  attempt_interval = number (pos 30);
  attempt_max = number (pos 3);
  handle_params = string "{\"a\":1}";
  schedule_mode = string "alone";
  alarm_type = undefined;
  alarm_content = undefined;
  enabled = boolean true;
  trigger_next_time = undefined;
  slot = number (pos 5);
}

pub task-IsWellTyped : TaskInfo.IsWellTyped task
task-IsWellTyped = record {
  id = refl;
  appid = tt;
  name = refl;
  handler = refl;
  description = tt;
  time_type = refl;
  time_conf = refl;
  attempt_interval = refl;
  attempt_max = refl;
  handle_params = refl;
  schedule_mode = refl;
  alarm_type = tt;
  alarm_content = tt;
  enabled = refl;
  trigger_next_time = tt;
  slot = refl;
}

abbrev pub add_request : AddTaskRequest
add_request = record { task = given task }

pub add_request-IsWellTyped : AddTaskRequest.IsWellTyped add_request
add_request-IsWellTyped = record { task = task-IsWellTyped }

abbrev page_of_tasks : BaseResponse ListTaskInfosResponse
page_of_tasks = record {
  code = number (pos 0);
  success = boolean true;
  result = given (record { count = string "1"; rows = given (given task ∷ []) });
  message = undefined;
  trace_id = string "t-1";
}

abbrev page_of_clients : BaseResponse ListClientsResponse
page_of_clients = record {
  code = number (pos 0);
  success = boolean true;
  result = given (record {
    count = string "1";
    rows = given (
        given (record {
          group_name = string "default";
          connection_id = undefined;
          handelrs = array (cons (string "report") nil);
          start_time = date (time (negsuc 4));
          client_id = string "c";
        })
        ∷ []);
  });
  message = undefined;
  trace_id = undefined;
}

abbrev counts : StatisticInfos
counts = record { count = string "12" }

counts-IsWellTyped : StatisticInfos.IsWellTyped counts
counts-IsWellTyped = record { count = refl }

abbrev statistics : BaseResponse StatisticsResponse
statistics = record {
  code = number (pos 0);
  success = boolean true;
  result = given (record {
    task_infos = given counts;
    task_logs = missing;
    servers = given counts;
    workers = missing;
  });
  message = string "ok";
  trace_id = undefined;
}

codec-Carries_example : Carries platform TaskInfo.codec task
codec-Carries_example = TaskInfo.codec-Carries platform task task-IsWellTyped

list_task_infos-Arrives_example :
    BaseResponse.Arrives platform ListTaskInfosResponse.codec page_of_tasks
list_task_infos-Arrives_example = list_task_infos-Arrives platform page_of_tasks (record {
  code = refl;
  success = refl;
  result = record { count = refl; rows = (task-IsWellTyped, tt) };
  message = tt;
  trace_id = refl;
})
