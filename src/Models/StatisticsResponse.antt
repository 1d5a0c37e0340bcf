-- ===== src/Models/StatisticsResponse.antt =====
-- ui/vite-opentask/src/apis-gen/models/StatisticsResponse.ts
use open_task.Common.{Bool, false, refl, ok, ◌>>=◌}
use open_task.Js.Value.{Value, object, Props, empty, prop, get}
use open_task.Js.Text.{Platform}
use open_task.Js.Json.{get_prop-wire_props}
use open_task.Js.Exception.{Result}
use open_task.Models.Codec.{Nullable, Codec, decode, encode, read_child, IsOptionalOf}
use open_task.Models.Codec.RoundTrip.{Carries, IsLawful, child_carried}
use open_task.Models.StatisticInfos
use open_task.Models.StatisticInfos.{StatisticInfos}

pub record StatisticsResponse : Type 0 where
  pub task_infos : Nullable StatisticInfos
  pub task_logs : Nullable StatisticInfos
  pub servers : Nullable StatisticInfos
  pub workers : Nullable StatisticInfos

-- The interface: each property is optional, of the type that is declared for it.
pub record IsWellTyped (m : StatisticsResponse) : Type 0 where
  pub task_infos : IsOptionalOf StatisticInfos.IsWellTyped m.task_infos
  pub task_logs : IsOptionalOf StatisticInfos.IsWellTyped m.task_logs
  pub servers : IsOptionalOf StatisticInfos.IsWellTyped m.servers
  pub workers : IsOptionalOf StatisticInfos.IsWellTyped m.workers

unfoldable pub from_json_typed : Value → Bool → Result (Nullable StatisticsResponse)
from_json_typed json ignore_discriminator = decode json (do
  task_infos ← read_child StatisticInfos.codec (get json "taskInfos")
  task_logs ← read_child StatisticInfos.codec (get json "taskLogs")
  servers ← read_child StatisticInfos.codec (get json "servers")
  workers ← read_child StatisticInfos.codec (get json "workers")
  ok (record {
    task_infos = task_infos;
    task_logs = task_logs;
    servers = servers;
    workers = workers;
  }))

unfoldable pub from_json : Value → Result (Nullable StatisticsResponse)
unfolding from_json_typed
from_json json = from_json_typed json false

-- The object that the encoder makes.
abbrev pub sent : Value → Value → Value → Value → StatisticsResponse → Props
sent task_infos task_logs servers workers m =
    (prop "taskInfos" task_infos
      (prop "taskLogs" task_logs (prop "servers" servers (prop "workers" workers empty))))

unfoldable pub to_json : Nullable StatisticsResponse → Result Value
to_json value = encode value (λ m. do
  task_infos ← StatisticInfos.to_json m.task_infos
  task_logs ← StatisticInfos.to_json m.task_logs
  servers ← StatisticInfos.to_json m.servers
  workers ← StatisticInfos.to_json m.workers
  ok (object (sent task_infos task_logs servers workers m)))

unfoldable pub codec : Codec StatisticsResponse
unfolding from_json to_json
codec = record { from_json = from_json; to_json = to_json }

-- What the encoder makes of a well-typed model crosses the network as JSON, and the decoder gives
-- the model back.
pub codec-Carries : (d : Platform) (m : StatisticsResponse) → IsWellTyped m → Carries d codec m
unfolding codec StatisticInfos.codec
codec-Carries d m t =
    let task_infos = child_carried d (StatisticInfos.codec-IsLawful d) m.task_infos t.task_infos in
    let task_logs = child_carried d (StatisticInfos.codec-IsLawful d) m.task_logs t.task_logs in
    let servers = child_carried d (StatisticInfos.codec-IsLawful d) m.servers t.servers in
    let workers = child_carried d (StatisticInfos.codec-IsLawful d) m.workers t.workers in
    let ps : Props = sent task_infos.value task_logs.value servers.value workers.value m in
    record {
      sent = ps;
      sends = rw (task_infos.sends, task_logs.sends, servers.sends, workers.sends);
      receives = rw (
        get_prop-wire_props d ps "taskInfos" refl,
        task_infos.receives,
        get_prop-wire_props d ps "taskLogs" refl,
        task_logs.receives,
        get_prop-wire_props d ps "servers" refl,
        servers.receives,
        get_prop-wire_props d ps "workers" refl,
        workers.receives,
      );
    }

pub codec-IsLawful : (d : Platform) → IsLawful d codec IsWellTyped
unfolding codec
codec-IsLawful d = record { sends_missing = refl; carries = codec-Carries d }
