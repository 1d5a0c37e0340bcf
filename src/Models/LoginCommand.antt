-- ===== src/Models/LoginCommand.antt =====
-- ui/vite-opentask/src/apis-gen/models/LoginCommand.ts: the one model with required properties.
use open_task.Common.{Bool, true, false, ◌≡◌, refl, ok, if◌then◌else◌, not}
use open_task.Js.Value.{Value, object, Props, empty, prop, get, has_key}
use open_task.Js.Text.{Platform}
use open_task.Js.Json.{get_prop-wire_props}
use open_task.Js.Exception.{Result}
use open_task.Models.Codec.{Nullable, Codec, decode, encode, is_string}
use open_task.Models.Codec.RoundTrip.{Carries, wire_of_is_string}

pub record LoginCommand : Type 0 where
  pub user_name : Value
  pub password : Value

pub record IsWellTyped (m : LoginCommand) : Type 0 where
  pub user_name : is_string m.user_name ≡ true
  pub password : is_string m.password ≡ true

-- `instanceOfLoginCommand`, on the properties of the object
unfoldable pub instance_of : Props → Bool
instance_of value =
    if not (has_key value "userName")
    then false
    else if not (has_key value "password")
    then false
    else true

unfoldable pub from_json_typed : Value → Bool → Result (Nullable LoginCommand)
from_json_typed json ignore_discriminator =
    decode json (ok (record { user_name = get json "userName"; password = get json "password" }))

unfoldable pub from_json : Value → Result (Nullable LoginCommand)
unfolding from_json_typed
from_json json = from_json_typed json false

abbrev pub sent : LoginCommand → Props
sent m = prop "userName" m.user_name (prop "password" m.password empty)

unfoldable pub to_json : Nullable LoginCommand → Result Value
to_json value = encode value (λ m. ok (object (sent m)))

unfoldable pub codec : Codec LoginCommand
unfolding from_json to_json
codec = record { from_json = from_json; to_json = to_json }

-- The credentials of a login cross the network as they were given, and what arrives passes the
-- interface's test.
pub codec-Carries : (d : Platform) (m : LoginCommand) → IsWellTyped m → Carries d codec m
unfolding codec
codec-Carries d m t =
    let ps : Props = sent m in
    record {
      sent = ps;
      sends = refl;
      receives = rw (
        get_prop-wire_props d ps "userName" refl,
        get_prop-wire_props d ps "password" refl,
        wire_of_is_string d m.user_name t.user_name,
        wire_of_is_string d m.password t.password,
      );
    }
