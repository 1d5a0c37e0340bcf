-- ===== src/Models/ExecutorClient.antt =====
-- ui/vite-opentask/src/apis-gen/models/ExecutorClient.ts
use open_task.Common.{Bool, false, refl, ok, ◌>>=◌}
use open_task.Js.Value.{Value, object, Props, empty, prop, get}
use open_task.Js.Text.{Platform}
use open_task.Js.Exception.{Result}
use open_task.Models.Codec.{
  Nullable, Codec, decode, encode, read, read_date, write_date, is_string, is_date, is_strings,
  IsOptional,
}
use open_task.Models.Codec.RoundTrip.{
  Carries, IsLawful, date_field, string_field, strings_field, date_text, write_date_lem,
}

pub record ExecutorClient : Type 0 where
  pub group_name : Value
  pub connection_id : Value
  pub handelrs : Value
  pub start_time : Value
  pub client_id : Value

-- The interface: each property is optional, of the type that is declared for it.
pub record IsWellTyped (m : ExecutorClient) : Type 0 where
  pub group_name : IsOptional is_string m.group_name
  pub connection_id : IsOptional is_string m.connection_id
  pub handelrs : IsOptional is_strings m.handelrs
  pub start_time : IsOptional is_date m.start_time
  pub client_id : IsOptional is_string m.client_id

module _ (d : Platform) where
  unfoldable pub from_json_typed : Value → Bool → Result (Nullable ExecutorClient)
  from_json_typed json ignore_discriminator = decode json (
      ok (record {
        group_name = read (get json "groupName");
        connection_id = read (get json "connectionId");
        handelrs = read (get json "handelrs");
        start_time = read_date d (get json "startTime");
        client_id = read (get json "clientId");
      }))

  unfoldable pub from_json : Value → Result (Nullable ExecutorClient)
  unfolding from_json_typed
  from_json json = from_json_typed json false

  -- The object that the encoder makes.
  abbrev pub sent : Value → ExecutorClient → Props
  sent start_time m =
      (prop "groupName" m.group_name (
        prop "connectionId" m.connection_id (
          prop "handelrs" m.handelrs
            (prop "startTime" start_time (prop "clientId" m.client_id empty)))))

  unfoldable pub to_json : Nullable ExecutorClient → Result Value
  to_json value =
      encode value (λ m. do start_time ← write_date d m.start_time; ok (object (sent start_time m)))

  unfoldable pub codec : Codec ExecutorClient
  unfolding from_json to_json
  codec = record { from_json = from_json; to_json = to_json }

  -- What the encoder makes of a well-typed model crosses the network as JSON, and the decoder gives
  -- the model back.
  pub codec-Carries : (m : ExecutorClient) → IsWellTyped m → Carries d codec m
  unfolding codec
  codec-Carries m t =
      let ps : Props = sent (date_text d m.start_time) m in
      record {
        sent = ps;
        sends = rw (write_date_lem d m.start_time t.start_time);
        receives = λ i. ok (
            Nullable.given (record {
              group_name = string_field d ps "groupName" refl t.group_name i;
              connection_id = string_field d ps "connectionId" refl t.connection_id i;
              handelrs = strings_field d ps "handelrs" refl t.handelrs i;
              start_time = date_field d ps "startTime" m.start_time refl refl t.start_time i;
              client_id = string_field d ps "clientId" refl t.client_id i;
            }));
      }

  pub codec-IsLawful : IsLawful d codec IsWellTyped
  unfolding codec
  codec-IsLawful = record { sends_missing = refl; carries = codec-Carries }
