-- ===== src/Models/ListTaskInfosResponse.antt =====
-- ui/vite-opentask/src/apis-gen/models/ListTaskInfosResponse.ts
use open_task.Common.{Bool, false, refl, ok, ◌>>=◌, List}
use open_task.Js.Value.{Value, object, Props, empty, prop, get}
use open_task.Js.Text.{Platform}
use open_task.Js.Json.{get_prop-wire_props}
use open_task.Js.Exception.{Result}
use open_task.Models.Codec.{
  Nullable, Codec, decode, encode, read, is_string, IsOptional, read_list, write_list, IsOptionalOf,
  IsEach,
}
use open_task.Models.Codec.RoundTrip.{Carries, IsLawful, string_field, list_carried}
use open_task.Models.TaskInfo
use open_task.Models.TaskInfo.{TaskInfo}

pub record ListTaskInfosResponse : Type 0 where
  pub count : Value
  pub rows : Nullable (List (Nullable TaskInfo))

-- The interface: each property is optional, of the type that is declared for it.
pub record IsWellTyped (m : ListTaskInfosResponse) : Type 0 where
  pub count : IsOptional is_string m.count
  pub rows : IsOptionalOf (IsEach TaskInfo.IsWellTyped) m.rows

unfoldable pub from_json_typed : Value → Bool → Result (Nullable ListTaskInfosResponse)
from_json_typed json ignore_discriminator = decode json (do
  rows ← read_list TaskInfo.codec (get json "rows")
  ok (record { count = read (get json "count"); rows = rows }))

unfoldable pub from_json : Value → Result (Nullable ListTaskInfosResponse)
unfolding from_json_typed
from_json json = from_json_typed json false

-- The object that the encoder makes.
abbrev pub sent : Value → ListTaskInfosResponse → Props
sent rows m = (prop "count" m.count (prop "rows" rows empty))

unfoldable pub to_json : Nullable ListTaskInfosResponse → Result Value
to_json value =
    encode value (λ m. do rows ← write_list TaskInfo.codec m.rows; ok (object (sent rows m)))

unfoldable pub codec : Codec ListTaskInfosResponse
unfolding from_json to_json
codec = record { from_json = from_json; to_json = to_json }

-- What the encoder makes of a well-typed model crosses the network as JSON, and the decoder gives
-- the model back.
pub codec-Carries : (d : Platform) (m : ListTaskInfosResponse) → IsWellTyped m → Carries d codec m
unfolding codec
codec-Carries d m t =
    let rows = list_carried d (TaskInfo.codec-IsLawful d) m.rows t.rows in
    let ps : Props = sent rows.value m in
    record {
      sent = ps;
      sends = rw (rows.sends);
      receives = rw (
        get_prop-wire_props d ps "rows" refl,
        rows.receives,
        string_field d ps "count" refl t.count,
      );
    }

pub codec-IsLawful : (d : Platform) → IsLawful d codec IsWellTyped
unfolding codec
codec-IsLawful d = record { sends_missing = refl; carries = codec-Carries d }
