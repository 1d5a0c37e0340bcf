-- ===== src/Models/Responses/Arrivals.antt =====
-- The envelopes around the results that the console's pages show.
use open_task.Js.Text.{Platform}
use open_task.Models.BaseResponse.{BaseResponse, IsWellTyped, Arrives, to_json-Arrives}
use open_task.Models.ListTaskInfosResponse
use open_task.Models.ListTaskInfosResponse.{ListTaskInfosResponse}
use open_task.Models.LisTaskLogsResponse
use open_task.Models.LisTaskLogsResponse.{LisTaskLogsResponse}
use open_task.Models.ListClientsResponse
use open_task.Models.ListClientsResponse.{ListClientsResponse}
use open_task.Models.StatisticsResponse
use open_task.Models.StatisticsResponse.{StatisticsResponse}
use open_task.Models.TaskLogsDayTrendResponse
use open_task.Models.TaskLogsDayTrendResponse.{TaskLogsDayTrendResponse}
use open_task.Models.ListTopTaskLogResponse
use open_task.Models.ListTopTaskLogResponse.{ListTopTaskLogResponse}

module _ (d : Platform) where
  -- A well-typed envelope around a page of tasks, encoded, sent as JSON and decoded, is the same but
  -- for success, which is not sent.
  pub list_task_infos-Arrives :
      (m : BaseResponse ListTaskInfosResponse)
      → IsWellTyped ListTaskInfosResponse.IsWellTyped m
      → Arrives d ListTaskInfosResponse.codec m
  list_task_infos-Arrives m t =
      to_json-Arrives d ListTaskInfosResponse.codec (ListTaskInfosResponse.codec-IsLawful d) m t

  -- A well-typed envelope around a page of the log, encoded, sent as JSON and decoded, is the same but for
  -- `success`, which is not sent.
  pub lis_task_logs-Arrives :
      (m : BaseResponse LisTaskLogsResponse)
      → IsWellTyped LisTaskLogsResponse.IsWellTyped m
      → Arrives d (LisTaskLogsResponse.codec d) m
  lis_task_logs-Arrives m t =
      to_json-Arrives d (LisTaskLogsResponse.codec d) (LisTaskLogsResponse.codec-IsLawful d) m t

  -- A well-typed envelope around a page of clients, with the times at which they started, encoded,
  -- sent as JSON and decoded, is the same but for success, which is not sent.
  pub list_clients-Arrives :
      (m : BaseResponse ListClientsResponse)
      → IsWellTyped ListClientsResponse.IsWellTyped m
      → Arrives d (ListClientsResponse.codec d) m
  list_clients-Arrives m t =
      to_json-Arrives d (ListClientsResponse.codec d) (ListClientsResponse.codec-IsLawful d) m t

  -- A well-typed envelope around the statistics, encoded, sent as JSON and decoded, is the same but
  -- for success, which is not sent.
  pub statistics-Arrives :
      (m : BaseResponse StatisticsResponse)
      → IsWellTyped StatisticsResponse.IsWellTyped m
      → Arrives d StatisticsResponse.codec m
  statistics-Arrives m t =
      to_json-Arrives d StatisticsResponse.codec (StatisticsResponse.codec-IsLawful d) m t

  -- A well-typed envelope around the trend of the days, encoded, sent as JSON and decoded, is the same but for
  -- `success`, which is not sent.
  pub task_logs_day_trend-Arrives :
      (m : BaseResponse TaskLogsDayTrendResponse)
      → IsWellTyped TaskLogsDayTrendResponse.IsWellTyped m
      → Arrives d TaskLogsDayTrendResponse.codec m
  task_logs_day_trend-Arrives m t =
      to_json-Arrives d TaskLogsDayTrendResponse.codec (TaskLogsDayTrendResponse.codec-IsLawful d) m
        t

  -- A well-typed envelope around the tasks that ran most, encoded, sent as JSON and decoded, is the same but for
  -- `success`, which is not sent.
  pub list_top_task_log-Arrives :
      (m : BaseResponse ListTopTaskLogResponse)
      → IsWellTyped ListTopTaskLogResponse.IsWellTyped m
      → Arrives d ListTopTaskLogResponse.codec m
  list_top_task_log-Arrives m t =
      to_json-Arrives d ListTopTaskLogResponse.codec (ListTopTaskLogResponse.codec-IsLawful d) m t
