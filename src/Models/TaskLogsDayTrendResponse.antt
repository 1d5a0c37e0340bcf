-- ===== src/Models/TaskLogsDayTrendResponse.antt =====
-- ui/vite-opentask/src/apis-gen/models/TaskLogsDayTrendResponse.ts
use open_task.Common.{Bool, false, refl, ok, ◌>>=◌, List}
use open_task.Js.Value.{Value, object, Props, empty, prop, get}
use open_task.Js.Text.{Platform}
use open_task.Js.Json.{get_prop-wire_props}
use open_task.Js.Exception.{Result}
use open_task.Models.Codec.{
  Nullable, Codec, decode, encode, read_list, write_list, IsOptionalOf, IsEach,
}
use open_task.Models.Codec.RoundTrip.{Carries, IsLawful, list_carried}
use open_task.Models.TaskLogDayTrend
use open_task.Models.TaskLogDayTrend.{TaskLogDayTrend}

pub record TaskLogsDayTrendResponse : Type 0 where
  pub data_rows : Nullable (List (Nullable TaskLogDayTrend))

-- The interface: each property is optional, of the type that is declared for it.
pub record IsWellTyped (m : TaskLogsDayTrendResponse) : Type 0 where
  pub data_rows : IsOptionalOf (IsEach TaskLogDayTrend.IsWellTyped) m.data_rows

unfoldable pub from_json_typed : Value → Bool → Result (Nullable TaskLogsDayTrendResponse)
from_json_typed json ignore_discriminator = decode json (do
  data_rows ← read_list TaskLogDayTrend.codec (get json "data")
  ok (record { data_rows = data_rows }))

unfoldable pub from_json : Value → Result (Nullable TaskLogsDayTrendResponse)
unfolding from_json_typed
from_json json = from_json_typed json false

-- The object that the encoder makes.
abbrev pub sent : Value → TaskLogsDayTrendResponse → Props
sent data_rows m = (prop "data" data_rows empty)

unfoldable pub to_json : Nullable TaskLogsDayTrendResponse → Result Value
to_json value = encode value (λ m. do
  data_rows ← write_list TaskLogDayTrend.codec m.data_rows
  ok (object (sent data_rows m)))

unfoldable pub codec : Codec TaskLogsDayTrendResponse
unfolding from_json to_json
codec = record { from_json = from_json; to_json = to_json }

-- What the encoder makes of a well-typed model crosses the network as JSON, and the decoder gives
-- the model back.
pub codec-Carries :
    (d : Platform) (m : TaskLogsDayTrendResponse) → IsWellTyped m → Carries d codec m
unfolding codec
codec-Carries d m t =
    let data_rows = list_carried d (TaskLogDayTrend.codec-IsLawful d) m.data_rows t.data_rows in
    let ps : Props = sent data_rows.value m in
    record {
      sent = ps;
      sends = rw (data_rows.sends);
      receives = rw (get_prop-wire_props d ps "data" refl, data_rows.receives);
    }

pub codec-IsLawful : (d : Platform) → IsLawful d codec IsWellTyped
unfolding codec
codec-IsLawful d = record { sends_missing = refl; carries = codec-Carries d }
