-- ===== src/Forms/NewTask.antt =====
-- ui/vite-opentask/src/pages/taskInfos/components/new-task-form.tsx: the schema, the submission and
-- the fields of the dialog's steps. The schema library and the form library are the record `Library`.
pub mod Submit
pub mod Fields
use open_task.Common.{
  ℕ, zero, suc, String, ◌==◌, ◌≡◌, ◌≤◌, Bool, true, false, Option, none, some, List, [], ◌∷◌, ◌||◌,
  eqb, if◌then◌else◌, not,
}
use open_task.Common.Int.{ℤ, pos}
use open_task.Js.Value.{Value, undefined, string, Props, empty, prop, get_prop, truthy}
use open_task.Js.Text.{Platform}
use open_task.Js.Exception.{Exception, Response, type_error}
use open_task.Models.Codec.{Nullable, missing, nulled, given, is_string, is_number, IsOptional}
use open_task.Models.BaseResponse.{BaseResponse}
use open_task.Models.TaskInfo.{TaskInfo}
use open_task.Runtime.Io.{Io, raise, ◌>>=◌}
use open_task.Runtime.Config.{FetchParams}
use open_task.Runtime.Fetch.{no_overrides}
use open_task.Apis.TaskInfoApi.{add_task_info}
use open_task.Forms.{
  Page, success, failure, MutationOptions, Mutations, change, show, set_loading, set_open,
  invalidate, transport, console, show_error,
}

-- A property's schema: a text of a least length, a number, or a number at most `max` with a default.
pub data FieldSchema : Type 0 where
  text : ℕ → FieldSchema
  number : FieldSchema
  number_to : (max default : ℕ) → FieldSchema

-- An object's schema after `partial` and `required`: its properties, and those that must be there.
pub record Schema : Type 0 where
  pub fields : List (String × FieldSchema)
  pub required : List String

abbrev pub field_of : List (String × FieldSchema) → String → Option FieldSchema
field_of [] k = none
field_of ((j, s) ∷ fields) k = if j == k then some s else field_of fields k

unfoldable pub task_schema : Schema
task_schema = record {
  fields =
      ("appid", text 2)
      ∷ ("name", text 2)
      ∷ ("handler", text 2)
      ∷ ("description", text 2)
      ∷ ("timeType", text 2)
      ∷ ("timeConf", text 2)
      ∷ ("attemptInterval", number)
      ∷ ("attemptMax", number_to 10 2)
      ∷ ("handleParams", text 0)
      ∷ ("scheduleMode", text 2)
      ∷ ("alarmType", text 2)
      ∷ ("alarmConf", text 2)
      ∷ [];
  required = [];
}

unfoldable pub required_schema : Schema
unfolding task_schema
required_schema = record task_schema { required = "name" ∷ "appid" ∷ "handler" ∷ "timeConf" ∷ [] }

abbrev pub default_values : Props
default_values = prop "appid" (string "") (
    prop "name" (string "") (
      prop "timeType" (string "cron")
        (prop "alarmType" (string "none") (prop "scheduleMode" (string "alone") empty))))

-- The type of a property.
abbrev pub is_of : FieldSchema → Value → Bool
is_of (text least) v = is_string v
is_of number v = is_number v
is_of (number_to max default) v = is_number v

-- Each property of an object has its type, or is undefined.
abbrev pub Accepted : List (String × FieldSchema) → Props → Type 0
Accepted [] ps = Unit
Accepted ((k, s) ∷ fields) ps = IsOptional (is_of s) (get_prop ps k) × Accepted fields ps

-- `zodResolver` and `handleSubmit`, as documented: what the schema accepts of the form's values has no
-- properties but the schema's, each of its type or undefined; and the handler runs on that, when
-- there is something accepted, and else does not run.
pub record Library (W : Type 0) : Type 0 where
  pub resolve : Schema → Props → Option Props
  pub only_fields :
      (s : Schema) (values accepted : Props) (k : String)
      → resolve s values ≡ some accepted
      → field_of s.fields k ≡ none
      → get_prop accepted k ≡ undefined
  pub typed :
      (s : Schema) (values accepted : Props)
      → resolve s values ≡ some accepted
      → Accepted s.fields accepted
  pub handle_submit : Schema → (Props → W → W) → Props → W → W
  pub submits :
      (s : Schema) (handler : Props → W → W) (values accepted : Props) (w : W)
      → resolve s values ≡ some accepted
      → handle_submit s handler values w ≡ handler accepted w
  pub rejects :
      (s : Schema) (handler : Props → W → W) (values : Props) (w : W)
      → resolve s values ≡ none
      → handle_submit s handler values w ≡ w

-- `data as TaskInfo`
unfoldable pub as_task_info : Props → TaskInfo
as_task_info ps = record {
  id = get_prop ps "id";
  appid = get_prop ps "appid";
  name = get_prop ps "name";
  handler = get_prop ps "handler";
  description = get_prop ps "description";
  time_type = get_prop ps "timeType";
  time_conf = get_prop ps "timeConf";
  attempt_interval = get_prop ps "attemptInterval";
  attempt_max = get_prop ps "attemptMax";
  handle_params = get_prop ps "handleParams";
  schedule_mode = get_prop ps "scheduleMode";
  alarm_type = get_prop ps "alarmType";
  alarm_content = get_prop ps "alarmContent";
  enabled = get_prop ps "enabled";
  trigger_next_time = get_prop ps "triggerNextTime";
  slot = get_prop ps "slot";
}

-- The controls of the form: what can be typed or chosen.
pub record Choice : Type 0 where
  pub value : String
  pub label : String
  pub is_disabled : Bool

pub data Control : Type 0 where
  input textarea : (placeholder : String) → Control
  radio_group : List Choice → Control
  select : (placeholder : String) → List Choice → Control

pub record FormField : Type 0 where
  pub name : String
  pub label : String
  pub control : Control

abbrev choice : String → String → Choice
choice value label = record { value = value; label = label; is_disabled = false }

-- The fields of the three steps of the dialog; the last step's by the alarm that is chosen.
unfoldable pub basic_fields : List FormField
basic_fields =
    record { name = "name"; label = "任务名称"; control = input "任务名称" }
    ∷ record { name = "appid"; label = "所属应用"; control = input "应用名" }
    ∷ record { name = "handler"; label = "Handler"; control = input "Handler" }
    ∷ record { name = "description"; label = "描述"; control = textarea "描述你的任务" }
    ∷ record {
      name = "scheduleMode";
      label = "执行模式";
      control = radio_group (
          choice "alone" "单节点"
          ∷ record { value = "broadcast"; label = "广播/分片"; is_disabled = true }
          ∷ []);
    }
    ∷ record { name = "handleParams"; label = "运行参数"; control = textarea "运行参数" }
    ∷ []

unfoldable pub time_fields : List FormField
time_fields =
    record {
      name = "timeType";
      label = "时间类型";
      control = select "选择时间类型" (choice "cron" "crontab" ∷ []);
    }
    ∷ record { name = "timeConf"; label = "时间表达式"; control = input "crontab 时间表达式" }
    ∷ []

webhook_fields : Value → List FormField
webhook_fields (string kind) =
    if kind == "wxwork"
    then record { name = "alarmConf"; label = "webhook"; control = input "webhook" } ∷ []
    else []
webhook_fields alarm_type = []

unfoldable pub alarm_fields : Value → List FormField
unfolding webhook_fields
alarm_fields alarm_type =
    record {
      name = "alarmType";
      label = "报警方式";
      control = select "选择报警方式" (choice "none" "不报警" ∷ choice "wxwork" "企业微信" ∷ []);
    }
    ∷ webhook_fields alarm_type

unfoldable pub fields_of_step : ℕ → Value → List FormField
unfolding basic_fields time_fields alarm_fields
fields_of_step index alarm_type =
    if eqb index 0
    then basic_fields
    else if eqb index 1
    then time_fields
    else if eqb index 2
    then alarm_fields alarm_type
    else []

module _ {N : Type 0} (d : Platform) (platform_message : Exception → String)
    (get_item : N → String → Option String) (api_url : String)
    (fetch : FetchParams → Io N Response) where
  unfoldable pub mutation_fn : TaskInfo → Io (Page N) (Nullable (BaseResponse Value))
  mutation_fn task_info = do
    _ ← change (set_loading true)
    add_task_info d (transport fetch) (console get_item api_url)
        (record { add_task_request = given (record { task = given task_info }) }) no_overrides

  unfoldable pub on_success : Nullable (BaseResponse Value) → Io (Page N) (Unit {0})
  on_success missing = raise type_error
  on_success nulled = raise type_error
  on_success (given response) =
      if not (truthy response.success)
      then change (show (failure response.message))
      else change
          (λ w. set_open false (invalidate "listTaskInfos" (show (success (string "创建成功")) w)))

  unfoldable pub mutation : MutationOptions (Page N) TaskInfo (Nullable (BaseResponse Value))
  unfolding mutation_fn on_success
  mutation = record {
    mutation_fn = mutation_fn;
    on_success = on_success;
    on_error = show_error platform_message;
    on_settled = change (set_loading false);
  }

  unfoldable pub on_submit : Mutations (Page N) → Props → Page N → Page N
  unfolding as_task_info
  on_submit m form_data = m.mutate mutation (as_task_info form_data)

  -- The submit event of the form, `form.handleSubmit(onSubmit)`.
  unfoldable pub submit : Mutations (Page N) → Library (Page N) → Props → Page N → Page N
  unfolding on_submit
  submit m library = library.handle_submit required_schema (on_submit m)
