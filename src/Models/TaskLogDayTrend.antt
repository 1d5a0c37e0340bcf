-- ===== src/Models/TaskLogDayTrend.antt =====
-- ui/vite-opentask/src/apis-gen/models/TaskLogDayTrend.ts
use open_task.Common.{Bool, false, refl, ok}
use open_task.Js.Value.{Value, object, Props, empty, prop, get}
use open_task.Js.Text.{Platform}
use open_task.Js.Exception.{Result}
use open_task.Models.Codec.{Nullable, Codec, decode, encode, read, is_string, is_number, IsOptional}
use open_task.Models.Codec.RoundTrip.{Carries, IsLawful, number_field, string_field}

pub record TaskLogDayTrend : Type 0 where
  pub day : Value
  pub total : Value
  pub success : Value

-- The interface: each property is optional, of the type that is declared for it.
pub record IsWellTyped (m : TaskLogDayTrend) : Type 0 where
  pub day : IsOptional is_string m.day
  pub total : IsOptional is_number m.total
  pub success : IsOptional is_number m.success

unfoldable pub from_json_typed : Value → Bool → Result (Nullable TaskLogDayTrend)
from_json_typed json ignore_discriminator = decode json (
    ok (record {
      day = read (get json "day");
      total = read (get json "total");
      success = read (get json "success");
    }))

unfoldable pub from_json : Value → Result (Nullable TaskLogDayTrend)
unfolding from_json_typed
from_json json = from_json_typed json false

-- The object that the encoder makes.
abbrev pub sent : TaskLogDayTrend → Props
sent m = (prop "day" m.day (prop "total" m.total (prop "success" m.success empty)))

unfoldable pub to_json : Nullable TaskLogDayTrend → Result Value
to_json value = encode value (λ m. ok (object (sent m)))

unfoldable pub codec : Codec TaskLogDayTrend
unfolding from_json to_json
codec = record { from_json = from_json; to_json = to_json }

-- What the encoder makes of a well-typed model crosses the network as JSON, and the decoder gives
-- the model back.
pub codec-Carries : (d : Platform) (m : TaskLogDayTrend) → IsWellTyped m → Carries d codec m
unfolding codec
codec-Carries d m t =
    let ps : Props = sent m in
    record {
      sent = ps;
      sends = refl;
      receives = λ i. ok (
          Nullable.given (record {
            day = string_field d ps "day" refl t.day i;
            total = number_field d ps "total" refl t.total i;
            success = number_field d ps "success" refl t.success i;
          }));
    }

pub codec-IsLawful : (d : Platform) → IsLawful d codec IsWellTyped
unfolding codec
codec-IsLawful d = record { sends_missing = refl; carries = codec-Carries d }
