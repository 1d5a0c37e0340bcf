-- ===== src/Models/StatisticInfos.antt =====
-- ui/vite-opentask/src/apis-gen/models/StatisticInfos.ts
use open_task.Common.{Bool, false, refl, ok}
use open_task.Js.Value.{Value, object, Props, empty, prop, get}
use open_task.Js.Text.{Platform}
use open_task.Js.Exception.{Result}
use open_task.Models.Codec.{Nullable, Codec, decode, encode, read, is_string, IsOptional}
use open_task.Models.Codec.RoundTrip.{Carries, IsLawful, string_field}

pub record StatisticInfos : Type 0 where
  pub count : Value

-- The interface: each property is optional, of the type that is declared for it.
pub record IsWellTyped (m : StatisticInfos) : Type 0 where
  pub count : IsOptional is_string m.count

unfoldable pub from_json_typed : Value → Bool → Result (Nullable StatisticInfos)
from_json_typed json ignore_discriminator =
    decode json (ok (record { count = read (get json "count") }))

unfoldable pub from_json : Value → Result (Nullable StatisticInfos)
unfolding from_json_typed
from_json json = from_json_typed json false

-- The object that the encoder makes.
abbrev pub sent : StatisticInfos → Props
sent m = (prop "count" m.count empty)

unfoldable pub to_json : Nullable StatisticInfos → Result Value
to_json value = encode value (λ m. ok (object (sent m)))

unfoldable pub codec : Codec StatisticInfos
unfolding from_json to_json
codec = record { from_json = from_json; to_json = to_json }

-- What the encoder makes of a well-typed model crosses the network as JSON, and the decoder gives
-- the model back.
pub codec-Carries : (d : Platform) (m : StatisticInfos) → IsWellTyped m → Carries d codec m
unfolding codec
codec-Carries d m t =
    let ps : Props = sent m in
    record {
      sent = ps;
      sends = refl;
      receives =
          λ i. ok (Nullable.given (record { count = string_field d ps "count" refl t.count i }));
    }

pub codec-IsLawful : (d : Platform) → IsLawful d codec IsWellTyped
unfolding codec
codec-IsLawful d = record { sends_missing = refl; carries = codec-Carries d }
