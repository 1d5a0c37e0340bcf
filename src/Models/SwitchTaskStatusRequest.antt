-- ===== src/Models/SwitchTaskStatusRequest.antt =====
-- ui/vite-opentask/src/apis-gen/models/SwitchTaskStatusRequest.ts
use open_task.Common.{Bool, false, refl, ok}
use open_task.Js.Value.{Value, object, Props, empty, prop, get}
use open_task.Js.Text.{Platform}
use open_task.Js.Exception.{Result}
use open_task.Models.Codec.{
  Nullable, Codec, decode, encode, read, is_string, is_boolean, IsOptional,
}
use open_task.Models.Codec.RoundTrip.{Carries, IsLawful, boolean_field, string_field}

pub record SwitchTaskStatusRequest : Type 0 where
  pub task_id : Value
  pub enabled : Value

-- The interface: each property is optional, of the type that is declared for it.
pub record IsWellTyped (m : SwitchTaskStatusRequest) : Type 0 where
  pub task_id : IsOptional is_string m.task_id
  pub enabled : IsOptional is_boolean m.enabled

unfoldable pub from_json_typed : Value → Bool → Result (Nullable SwitchTaskStatusRequest)
from_json_typed json ignore_discriminator =
    decode json
      (ok (record { task_id = read (get json "taskId"); enabled = read (get json "enabled") }))

unfoldable pub from_json : Value → Result (Nullable SwitchTaskStatusRequest)
unfolding from_json_typed
from_json json = from_json_typed json false

-- The object that the encoder makes.
abbrev pub sent : SwitchTaskStatusRequest → Props
sent m = (prop "taskId" m.task_id (prop "enabled" m.enabled empty))

unfoldable pub to_json : Nullable SwitchTaskStatusRequest → Result Value
to_json value = encode value (λ m. ok (object (sent m)))

unfoldable pub codec : Codec SwitchTaskStatusRequest
unfolding from_json to_json
codec = record { from_json = from_json; to_json = to_json }

-- What the encoder makes of a well-typed model crosses the network as JSON, and the decoder gives
-- the model back.
pub codec-Carries : (d : Platform) (m : SwitchTaskStatusRequest) → IsWellTyped m → Carries d codec m
unfolding codec
codec-Carries d m t =
    let ps : Props = sent m in
    record {
      sent = ps;
      sends = refl;
      receives = λ i. ok (
          Nullable.given (record {
            task_id = string_field d ps "taskId" refl t.task_id i;
            enabled = boolean_field d ps "enabled" refl t.enabled i;
          }));
    }

pub codec-IsLawful : (d : Platform) → IsLawful d codec IsWellTyped
unfolding codec
codec-IsLawful d = record { sends_missing = refl; carries = codec-Carries d }
