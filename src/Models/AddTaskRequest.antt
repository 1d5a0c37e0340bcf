-- ===== src/Models/AddTaskRequest.antt =====
-- ui/vite-opentask/src/apis-gen/models/AddTaskRequest.ts
use open_task.Common.{Bool, false, refl, ok, ◌>>=◌}
use open_task.Js.Value.{Value, object, Props, empty, prop, get}
use open_task.Js.Text.{Platform}
use open_task.Js.Json.{get_prop-wire_props}
use open_task.Js.Exception.{Result}
use open_task.Models.Codec.{Nullable, Codec, decode, encode, read_child, IsOptionalOf}
use open_task.Models.Codec.RoundTrip.{Carries, IsLawful, child_carried}
use open_task.Models.TaskInfo
use open_task.Models.TaskInfo.{TaskInfo}

pub record AddTaskRequest : Type 0 where
  pub task : Nullable TaskInfo

-- The interface: each property is optional, of the type that is declared for it.
pub record IsWellTyped (m : AddTaskRequest) : Type 0 where
  pub task : IsOptionalOf TaskInfo.IsWellTyped m.task

unfoldable pub from_json_typed : Value → Bool → Result (Nullable AddTaskRequest)
from_json_typed json ignore_discriminator =
    decode json (do task ← read_child TaskInfo.codec (get json "task"); ok (record { task = task }))

unfoldable pub from_json : Value → Result (Nullable AddTaskRequest)
unfolding from_json_typed
from_json json = from_json_typed json false

-- The object that the encoder makes.
abbrev pub sent : Value → AddTaskRequest → Props
sent task m = (prop "task" task empty)

unfoldable pub to_json : Nullable AddTaskRequest → Result Value
to_json value = encode value (λ m. do task ← TaskInfo.to_json m.task; ok (object (sent task m)))

unfoldable pub codec : Codec AddTaskRequest
unfolding from_json to_json
codec = record { from_json = from_json; to_json = to_json }

-- What the encoder makes of a well-typed model crosses the network as JSON, and the decoder gives
-- the model back.
pub codec-Carries : (d : Platform) (m : AddTaskRequest) → IsWellTyped m → Carries d codec m
unfolding codec TaskInfo.codec
codec-Carries d m t =
    let task = child_carried d (TaskInfo.codec-IsLawful d) m.task t.task in
    let ps : Props = sent task.value m in
    record {
      sent = ps;
      sends = rw (task.sends);
      receives = rw (get_prop-wire_props d ps "task" refl, task.receives);
    }

pub codec-IsLawful : (d : Platform) → IsLawful d codec IsWellTyped
unfolding codec
codec-IsLawful d = record { sends_missing = refl; carries = codec-Carries d }
