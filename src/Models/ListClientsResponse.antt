-- ===== src/Models/ListClientsResponse.antt =====
-- ui/vite-opentask/src/apis-gen/models/ListClientsResponse.ts
use open_task.Common.{Bool, false, refl, ok, ◌>>=◌, List}
use open_task.Js.Value.{Value, object, Props, empty, prop, get}
use open_task.Js.Text.{Platform}
use open_task.Js.Json.{get_prop-wire_props}
use open_task.Js.Exception.{Result}
use open_task.Models.Codec.{
  Nullable, Codec, decode, encode, read, is_string, IsOptional, read_list, write_list, IsOptionalOf,
  IsEach,
}
use open_task.Models.Codec.RoundTrip.{Carries, IsLawful, string_field, list_carried}
use open_task.Models.ExecutorClient
use open_task.Models.ExecutorClient.{ExecutorClient}

pub record ListClientsResponse : Type 0 where
  pub count : Value
  pub rows : Nullable (List (Nullable ExecutorClient))

-- The interface: each property is optional, of the type that is declared for it.
pub record IsWellTyped (m : ListClientsResponse) : Type 0 where
  pub count : IsOptional is_string m.count
  pub rows : IsOptionalOf (IsEach ExecutorClient.IsWellTyped) m.rows

module _ (d : Platform) where
  unfoldable pub from_json_typed : Value → Bool → Result (Nullable ListClientsResponse)
  from_json_typed json ignore_discriminator = decode json (do
    rows ← read_list (ExecutorClient.codec d) (get json "rows")
    ok (record { count = read (get json "count"); rows = rows }))

  unfoldable pub from_json : Value → Result (Nullable ListClientsResponse)
  unfolding from_json_typed
  from_json json = from_json_typed json false

  -- The object that the encoder makes.
  abbrev pub sent : Value → ListClientsResponse → Props
  sent rows m = (prop "count" m.count (prop "rows" rows empty))

  unfoldable pub to_json : Nullable ListClientsResponse → Result Value
  to_json value =
      encode value
        (λ m. do rows ← write_list (ExecutorClient.codec d) m.rows; ok (object (sent rows m)))

  unfoldable pub codec : Codec ListClientsResponse
  unfolding from_json to_json
  codec = record { from_json = from_json; to_json = to_json }

  -- What the encoder makes of a well-typed model crosses the network as JSON, and the decoder gives
  -- the model back.
  pub codec-Carries : (m : ListClientsResponse) → IsWellTyped m → Carries d codec m
  unfolding codec
  codec-Carries m t =
      let rows = list_carried d (ExecutorClient.codec-IsLawful d) m.rows t.rows in
      let ps : Props = sent rows.value m in
      record {
        sent = ps;
        sends = rw (rows.sends);
        receives = rw (
          get_prop-wire_props d ps "rows" refl,
          rows.receives,
          string_field d ps "count" refl t.count,
        );
      }

  pub codec-IsLawful : IsLawful d codec IsWellTyped
  unfolding codec
  codec-IsLawful = record { sends_missing = refl; carries = codec-Carries }
