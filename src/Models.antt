-- ===== src/Models.antt =====
-- The data that the console and the server exchange: ui/vite-opentask/src/apis-gen/models, a module
-- for each file, over the helpers of `Codec`.
pub mod Codec
pub mod TaskInfo
pub mod TaskLog
pub mod ExecutorClient
pub mod AddTaskRequest
pub mod DeleteTaskRequest
pub mod ExcuteOnceRequest
pub mod SwitchTaskStatusRequest
pub mod LoginResponse
pub mod StatisticInfos
pub mod StatisticsResponse
pub mod TaskLogDayTrend
pub mod TopTaskLog
pub mod TaskLogsDayTrendResponse
pub mod ListTopTaskLogResponse
pub mod LisTaskLogsResponse
pub mod ListClientsResponse
pub mod ListTaskInfosResponse
pub mod BaseResponse
pub mod LoginCommand
pub mod GetNext5TriggertimesResponse
pub mod Responses
