-- ===== src/Models/ListTopTaskLogResponse.antt =====
-- ui/vite-opentask/src/apis-gen/models/ListTopTaskLogResponse.ts
use open_task.Common.{Bool, false, refl, ok, ◌>>=◌, List}
use open_task.Js.Value.{Value, object, Props, empty, prop, get}
use open_task.Js.Text.{Platform}
use open_task.Js.Json.{get_prop-wire_props}
use open_task.Js.Exception.{Result}
use open_task.Models.Codec.{
  Nullable, Codec, decode, encode, read_list, write_list, IsOptionalOf, IsEach,
}
use open_task.Models.Codec.RoundTrip.{Carries, IsLawful, list_carried}
use open_task.Models.TopTaskLog
use open_task.Models.TopTaskLog.{TopTaskLog}

pub record ListTopTaskLogResponse : Type 0 where
  pub data_rows : Nullable (List (Nullable TopTaskLog))

-- The interface: each property is optional, of the type that is declared for it.
pub record IsWellTyped (m : ListTopTaskLogResponse) : Type 0 where
  pub data_rows : IsOptionalOf (IsEach TopTaskLog.IsWellTyped) m.data_rows

unfoldable pub from_json_typed : Value → Bool → Result (Nullable ListTopTaskLogResponse)
from_json_typed json ignore_discriminator = decode json (do
  data_rows ← read_list TopTaskLog.codec (get json "data")
  ok (record { data_rows = data_rows }))

unfoldable pub from_json : Value → Result (Nullable ListTopTaskLogResponse)
unfolding from_json_typed
from_json json = from_json_typed json false

-- The object that the encoder makes.
abbrev pub sent : Value → ListTopTaskLogResponse → Props
sent data_rows m = (prop "data" data_rows empty)

unfoldable pub to_json : Nullable ListTopTaskLogResponse → Result Value
to_json value =
    encode value
      (λ m. do data_rows ← write_list TopTaskLog.codec m.data_rows; ok (object (sent data_rows m)))

unfoldable pub codec : Codec ListTopTaskLogResponse
unfolding from_json to_json
codec = record { from_json = from_json; to_json = to_json }

-- What the encoder makes of a well-typed model crosses the network as JSON, and the decoder gives
-- the model back.
pub codec-Carries : (d : Platform) (m : ListTopTaskLogResponse) → IsWellTyped m → Carries d codec m
unfolding codec
codec-Carries d m t =
    let data_rows = list_carried d (TopTaskLog.codec-IsLawful d) m.data_rows t.data_rows in
    let ps : Props = sent data_rows.value m in
    record {
      sent = ps;
      sends = rw (data_rows.sends);
      receives = rw (get_prop-wire_props d ps "data" refl, data_rows.receives);
    }

pub codec-IsLawful : (d : Platform) → IsLawful d codec IsWellTyped
unfolding codec
codec-IsLawful d = record { sends_missing = refl; carries = codec-Carries d }
