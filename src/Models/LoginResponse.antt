-- ===== src/Models/LoginResponse.antt =====
-- ui/vite-opentask/src/apis-gen/models/LoginResponse.ts
use open_task.Common.{Bool, false, refl, ok}
use open_task.Js.Value.{Value, object, Props, empty, prop, get}
use open_task.Js.Text.{Platform}
use open_task.Js.Exception.{Result}
use open_task.Models.Codec.{Nullable, Codec, decode, encode, read, is_string, IsOptional}
use open_task.Models.Codec.RoundTrip.{Carries, IsLawful, string_field}

pub record LoginResponse : Type 0 where
  pub token : Value

-- The interface: each property is optional, of the type that is declared for it.
pub record IsWellTyped (m : LoginResponse) : Type 0 where
  pub token : IsOptional is_string m.token

unfoldable pub from_json_typed : Value → Bool → Result (Nullable LoginResponse)
from_json_typed json ignore_discriminator =
    decode json (ok (record { token = read (get json "token") }))

unfoldable pub from_json : Value → Result (Nullable LoginResponse)
unfolding from_json_typed
from_json json = from_json_typed json false

-- The object that the encoder makes.
abbrev pub sent : LoginResponse → Props
sent m = (prop "token" m.token empty)

unfoldable pub to_json : Nullable LoginResponse → Result Value
to_json value = encode value (λ m. ok (object (sent m)))

unfoldable pub codec : Codec LoginResponse
unfolding from_json to_json
codec = record { from_json = from_json; to_json = to_json }

-- What the encoder makes of a well-typed model crosses the network as JSON, and the decoder gives
-- the model back.
pub codec-Carries : (d : Platform) (m : LoginResponse) → IsWellTyped m → Carries d codec m
unfolding codec
codec-Carries d m t =
    let ps : Props = sent m in
    record {
      sent = ps;
      sends = refl;
      receives =
          λ i. ok (Nullable.given (record { token = string_field d ps "token" refl t.token i }));
    }

pub codec-IsLawful : (d : Platform) → IsLawful d codec IsWellTyped
unfolding codec
codec-IsLawful d = record { sends_missing = refl; carries = codec-Carries d }
