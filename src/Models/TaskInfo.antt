-- ===== src/Models/TaskInfo.antt =====
-- ui/vite-opentask/src/apis-gen/models/TaskInfo.ts
use open_task.Common.{Bool, false, refl, ok}
use open_task.Js.Value.{Value, object, Props, empty, prop, get}
use open_task.Js.Text.{Platform}
use open_task.Js.Exception.{Result}
use open_task.Models.Codec.{
  Nullable, Codec, decode, encode, read, is_string, is_number, is_boolean, IsOptional,
}
use open_task.Models.Codec.RoundTrip.{Carries, IsLawful, boolean_field, number_field, string_field}

pub record TaskInfo : Type 0 where
  pub id : Value
  pub appid : Value
  pub name : Value
  pub handler : Value
  pub description : Value
  pub time_type : Value
  pub time_conf : Value
  pub attempt_interval : Value
  pub attempt_max : Value
  pub handle_params : Value
  pub schedule_mode : Value
  pub alarm_type : Value
  pub alarm_content : Value
  pub enabled : Value
  pub trigger_next_time : Value
  pub slot : Value

-- The interface: each property is optional, of the type that is declared for it.
pub record IsWellTyped (m : TaskInfo) : Type 0 where
  pub id : IsOptional is_string m.id
  pub appid : IsOptional is_string m.appid
  pub name : IsOptional is_string m.name
  pub handler : IsOptional is_string m.handler
  pub description : IsOptional is_string m.description
  pub time_type : IsOptional is_string m.time_type
  pub time_conf : IsOptional is_string m.time_conf
  pub attempt_interval : IsOptional is_number m.attempt_interval
  pub attempt_max : IsOptional is_number m.attempt_max
  pub handle_params : IsOptional is_string m.handle_params
  pub schedule_mode : IsOptional is_string m.schedule_mode
  pub alarm_type : IsOptional is_string m.alarm_type
  pub alarm_content : IsOptional is_string m.alarm_content
  pub enabled : IsOptional is_boolean m.enabled
  pub trigger_next_time : IsOptional is_string m.trigger_next_time
  pub slot : IsOptional is_number m.slot

unfoldable pub from_json_typed : Value → Bool → Result (Nullable TaskInfo)
from_json_typed json ignore_discriminator = decode json (
    ok (record {
      id = read (get json "id");
      appid = read (get json "appid");
      name = read (get json "name");
      handler = read (get json "handler");
      description = read (get json "description");
      time_type = read (get json "timeType");
      time_conf = read (get json "timeConf");
      attempt_interval = read (get json "attemptInterval");
      attempt_max = read (get json "attemptMax");
      handle_params = read (get json "handleParams");
      schedule_mode = read (get json "scheduleMode");
      alarm_type = read (get json "alarmType");
      alarm_content = read (get json "alarmContent");
      enabled = read (get json "enabled");
      trigger_next_time = read (get json "triggerNextTime");
      slot = read (get json "slot");
    }))

unfoldable pub from_json : Value → Result (Nullable TaskInfo)
unfolding from_json_typed
from_json json = from_json_typed json false

-- The object that the encoder makes.
abbrev pub sent : TaskInfo → Props
sent m =
    (prop "id" m.id (
      prop "appid" m.appid (
        prop "name" m.name (
          prop "handler" m.handler (
            prop "description" m.description (
              prop "timeType" m.time_type (
                prop "timeConf" m.time_conf (
                  prop "attemptInterval" m.attempt_interval (
                    prop "attemptMax" m.attempt_max (
                      prop "handleParams" m.handle_params (
                        prop "scheduleMode" m.schedule_mode (
                          prop "alarmType" m.alarm_type (
                            prop "alarmContent" m.alarm_content (
                              prop "enabled" m.enabled (
                                prop "triggerNextTime" m.trigger_next_time
                                  (prop "slot" m.slot empty))))))))))))))))

unfoldable pub to_json : Nullable TaskInfo → Result Value
to_json value = encode value (λ m. ok (object (sent m)))

unfoldable pub codec : Codec TaskInfo
unfolding from_json to_json
codec = record { from_json = from_json; to_json = to_json }

-- The encoder makes an object of every task whose properties have their declared types or are
-- undefined, and the decoder gives the same task back from that object as it arrives through JSON.
pub codec-Carries : (d : Platform) (m : TaskInfo) → IsWellTyped m → Carries d codec m
unfolding codec
codec-Carries d m t =
    let ps : Props = sent m in
    record {
      sent = ps;
      sends = refl;
      receives = λ i. ok (
          Nullable.given (record {
            id = string_field d ps "id" refl t.id i;
            appid = string_field d ps "appid" refl t.appid i;
            name = string_field d ps "name" refl t.name i;
            handler = string_field d ps "handler" refl t.handler i;
            description = string_field d ps "description" refl t.description i;
            time_type = string_field d ps "timeType" refl t.time_type i;
            time_conf = string_field d ps "timeConf" refl t.time_conf i;
            attempt_interval = number_field d ps "attemptInterval" refl t.attempt_interval i;
            attempt_max = number_field d ps "attemptMax" refl t.attempt_max i;
            handle_params = string_field d ps "handleParams" refl t.handle_params i;
            schedule_mode = string_field d ps "scheduleMode" refl t.schedule_mode i;
            alarm_type = string_field d ps "alarmType" refl t.alarm_type i;
            alarm_content = string_field d ps "alarmContent" refl t.alarm_content i;
            enabled = boolean_field d ps "enabled" refl t.enabled i;
            trigger_next_time = string_field d ps "triggerNextTime" refl t.trigger_next_time i;
            slot = number_field d ps "slot" refl t.slot i;
          }));
    }

pub codec-IsLawful : (d : Platform) → IsLawful d codec IsWellTyped
unfolding codec
codec-IsLawful d = record { sends_missing = refl; carries = codec-Carries d }
