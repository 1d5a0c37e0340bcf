-- ===== src/Models/TaskLog.antt =====
-- ui/vite-opentask/src/apis-gen/models/TaskLog.ts
use open_task.Common.{Bool, false, refl, ok, ◌>>=◌}
use open_task.Js.Value.{Value, object, Props, empty, prop, get}
use open_task.Js.Text.{Platform}
use open_task.Js.Exception.{Result}
use open_task.Models.Codec.{
  Nullable, Codec, decode, encode, read, read_date, write_date, is_string, is_number, is_date,
  IsOptional,
}
use open_task.Models.Codec.RoundTrip.{
  Carries, IsLawful, date_field, number_field, string_field, date_text, write_date_lem,
}

pub record TaskLog : Type 0 where
  pub id : Value
  pub task_id : Value
  pub handle_start : Value
  pub handle_end : Value
  pub handle_result : Value
  pub handle_status : Value
  pub handle_client : Value
  pub alarm_status : Value

-- The interface: each property is optional, of the type that is declared for it.
pub record IsWellTyped (m : TaskLog) : Type 0 where
  pub id : IsOptional is_string m.id
  pub task_id : IsOptional is_string m.task_id
  pub handle_start : IsOptional is_date m.handle_start
  pub handle_end : IsOptional is_date m.handle_end
  pub handle_result : IsOptional is_string m.handle_result
  pub handle_status : IsOptional is_number m.handle_status
  pub handle_client : IsOptional is_string m.handle_client
  pub alarm_status : IsOptional is_number m.alarm_status

module _ (d : Platform) where
  unfoldable pub from_json_typed : Value → Bool → Result (Nullable TaskLog)
  from_json_typed json ignore_discriminator = decode json (
      ok (record {
        id = read (get json "id");
        task_id = read (get json "taskId");
        handle_start = read_date d (get json "handleStart");
        handle_end = read_date d (get json "handleEnd");
        handle_result = read (get json "handleResult");
        handle_status = read (get json "handleStatus");
        handle_client = read (get json "handleClient");
        alarm_status = read (get json "alarmStatus");
      }))

  unfoldable pub from_json : Value → Result (Nullable TaskLog)
  unfolding from_json_typed
  from_json json = from_json_typed json false

  -- The object that the encoder makes.
  abbrev pub sent : Value → Value → TaskLog → Props
  sent handle_start handle_end m =
      (prop "id" m.id (
        prop "taskId" m.task_id (
          prop "handleStart" handle_start (
            prop "handleEnd" handle_end (
              prop "handleResult" m.handle_result (
                prop "handleStatus" m.handle_status (
                  prop "handleClient" m.handle_client
                    (prop "alarmStatus" m.alarm_status empty))))))))

  unfoldable pub to_json : Nullable TaskLog → Result Value
  to_json value = encode value (λ m. do
    handle_start ← write_date d m.handle_start
    handle_end ← write_date d m.handle_end
    ok (object (sent handle_start handle_end m)))

  unfoldable pub codec : Codec TaskLog
  unfolding from_json to_json
  codec = record { from_json = from_json; to_json = to_json }

  -- What the encoder makes of a well-typed model crosses the network as JSON, and the decoder gives
  -- the model back.
  pub codec-Carries : (m : TaskLog) → IsWellTyped m → Carries d codec m
  unfolding codec
  codec-Carries m t =
      let ps : Props = sent (date_text d m.handle_start) (date_text d m.handle_end) m in
      record {
        sent = ps;
        sends = rw (
          write_date_lem d m.handle_start t.handle_start,
          write_date_lem d m.handle_end t.handle_end,
        );
        receives = λ i. ok (
            Nullable.given (record {
              id = string_field d ps "id" refl t.id i;
              task_id = string_field d ps "taskId" refl t.task_id i;
              handle_start =
                  date_field d ps "handleStart" m.handle_start refl refl t.handle_start i;
              handle_end = date_field d ps "handleEnd" m.handle_end refl refl t.handle_end i;
              handle_result = string_field d ps "handleResult" refl t.handle_result i;
              handle_status = number_field d ps "handleStatus" refl t.handle_status i;
              handle_client = string_field d ps "handleClient" refl t.handle_client i;
              alarm_status = number_field d ps "alarmStatus" refl t.alarm_status i;
            }));
      }

  pub codec-IsLawful : IsLawful d codec IsWellTyped
  unfolding codec
  codec-IsLawful = record { sends_missing = refl; carries = codec-Carries }
