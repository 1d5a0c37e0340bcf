-- ===== src/Models/DeleteTaskRequest.antt =====
-- ui/vite-opentask/src/apis-gen/models/DeleteTaskRequest.ts
use open_task.Common.{Bool, false, refl, ok}
use open_task.Js.Value.{Value, object, Props, empty, prop, get}
use open_task.Js.Text.{Platform}
use open_task.Js.Exception.{Result}
use open_task.Models.Codec.{Nullable, Codec, decode, encode, read, is_string, IsOptional}
use open_task.Models.Codec.RoundTrip.{Carries, IsLawful, string_field}

pub record DeleteTaskRequest : Type 0 where
  pub task_id : Value

-- The interface: each property is optional, of the type that is declared for it.
pub record IsWellTyped (m : DeleteTaskRequest) : Type 0 where
  pub task_id : IsOptional is_string m.task_id

unfoldable pub from_json_typed : Value → Bool → Result (Nullable DeleteTaskRequest)
from_json_typed json ignore_discriminator =
    decode json (ok (record { task_id = read (get json "taskId") }))

unfoldable pub from_json : Value → Result (Nullable DeleteTaskRequest)
unfolding from_json_typed
from_json json = from_json_typed json false

-- The object that the encoder makes.
abbrev pub sent : DeleteTaskRequest → Props
sent m = (prop "taskId" m.task_id empty)

unfoldable pub to_json : Nullable DeleteTaskRequest → Result Value
to_json value = encode value (λ m. ok (object (sent m)))

unfoldable pub codec : Codec DeleteTaskRequest
unfolding from_json to_json
codec = record { from_json = from_json; to_json = to_json }

-- What the encoder makes of a well-typed model crosses the network as JSON, and the decoder gives
-- the model back.
pub codec-Carries : (d : Platform) (m : DeleteTaskRequest) → IsWellTyped m → Carries d codec m
unfolding codec
codec-Carries d m t =
    let ps : Props = sent m in
    record {
      sent = ps;
      sends = refl;
      receives = λ i.
          ok (Nullable.given (record { task_id = string_field d ps "taskId" refl t.task_id i }));
    }

pub codec-IsLawful : (d : Platform) → IsLawful d codec IsWellTyped
unfolding codec
codec-IsLawful d = record { sends_missing = refl; carries = codec-Carries d }
