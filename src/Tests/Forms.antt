-- ===== src/Tests/Forms.antt =====
-- The forms of the console over a network that grants, refuses or fails, and the storage of a browser.
use open_task.Common.{String, ◌↔◌, ◌≡◌, refl, true, false, none, some, [], ◌∷◌, ok, throw}
use open_task.Js.Value.{Value, undefined, boolean, string, object, Props, empty, prop}
use open_task.Js.Stringify.{stringify}
use open_task.Js.Exception.{Exception, Response, thrown, type_error}
use open_task.Models.Codec.{given, missing}
use open_task.Models.BaseResponse
use open_task.Models.BaseResponse.{BaseResponse}
use open_task.Models.LoginResponse
use open_task.Models.Responses.{
  login_response_base_response, add_task_response_base_response,
  switch_task_status_response_base_response,
}
use open_task.Runtime.Io.{Io, then_run, catch_run}
use open_task.Runtime.Config.{FetchParams}
use open_task.Forms.{Page, Mutations, MutationOptions, success}
use open_task.Forms.Login.{on_submit, mutation}
use open_task.Forms.Login.Submit.{filled, on_submit_granted, on_submit_refused}
use open_task.AppConfig.{stored_token}
use open_task.Forms.{read_item as read_page}
use open_task.Forms.Fields.{Contexts, no_provider, form_field, form_item, form_label}
use open_task.Forms.Fields.Parts.{control, attribute, id_of, label_names}
use open_task.Forms.NewTask.{as_task_info, submit, required_schema, task_schema}
use open_task.Forms.NewTask.Submit.{submit_granted}
use open_task.Forms.SwitchEnable.{Enabled, on_checked_change}
use open_task.Forms.SwitchEnable.Clicks.{Grants, on_checked_change_twice}
use open_task.Tests.Libraries.{library, accepts, fits, known}
use open_task.Tests.Samples.{platform, api_url, read_item, Storage}

-- The mutations of a library that hands what a handler of success throws to the handler of errors.
pub run : {V A : Type 0} → MutationOptions (Page Storage) V A → V → Page Storage → Page Storage
run o v w =
    (then_run (catch_run (then_run (o.mutation_fn v w) o.on_success) o.on_error)
      (λ done. o.on_settled)).1

pub run_resolves :
    {V A : Type 0} (o : MutationOptions (Page Storage) V A) (v : V) (a : A) (w w₁ w₂ : Page Storage)
    → o.mutation_fn v w ≡ (ok a, w₁)
    → o.on_success a w₁ ≡ (ok tt, w₂)
    → run o v w ≡ (o.on_settled w₂).1
unfolding run
run_resolves o v a w w₁ w₂ e h = rw (run, e, h)

pub run_rejects :
    {V A : Type 0} (o : MutationOptions (Page Storage) V A) (v : V) (e : Exception)
    (w w₁ w₂ : Page Storage)
    → o.mutation_fn v w ≡ (throw e, w₁)
    → o.on_error e w₁ ≡ (ok tt, w₂)
    → run o v w ≡ (o.on_settled w₂).1
unfolding run
run_rejects o v x w w₁ w₂ e h = rw (run, e, h)

abbrev pub mutations : Mutations (Page Storage)
mutations = record { mutate = run; resolves = run_resolves; rejects = run_rejects }

abbrev pub blank_page : Page Storage
blank_page = record {
  browser = none;
  notices = [];
  invalidated = [];
  path = "/login";
  is_loading = false;
  is_open = true;
}

abbrev pub no_message : Exception → String
no_message e = ""

-- The storage of the token's atom.
abbrev pub save : Value → Storage → Storage
save v n = elim (stringify platform v) [ string t ↦ some t | _ ↦ n ]

abbrev pub answered : Value → Response
answered json = record { status = 200; json = some json }

abbrev pub granting : Value → FetchParams → Io Storage Response
granting json p n = (ok (answered json), n)

abbrev token_json : Value
token_json = object (
    prop "success" (boolean true)
      (prop "result" (object (prop "token" (string "abc") empty)) empty))

abbrev unauthorized : Response
unauthorized = record { status = 401; json = none }

abbrev refusing : FetchParams → Io Storage Response
refusing p n = (ok unauthorized, n)

on_submit_granted_example :
    let w =
      on_submit platform no_message read_item save api_url
        (granting token_json)
        mutations
        (filled "admin" "secret")
        blank_page in
    (w ≡ record blank_page {
      browser = some "\"abc\"";
      notices = success (string "登录成功") ∷ [];
      path = "/";
      is_loading = false;
    })
    × (stored_token (read_page read_item) w ≡ "abc")
unfolding login_response_base_response BaseResponse.codec LoginResponse.codec stringify
on_submit_granted_example =
    on_submit_granted platform no_message read_item save api_url (granting token_json) "admin"
      "secret" blank_page none mutations (answered token_json) token_json
      (record {
        code = undefined;
        success = boolean true;
        result = given (record { token = string "abc" });
        message = undefined;
        trace_id = undefined;
      })
      "abc" "\"abc\"" (λ p asks. refl) refl refl refl refl refl refl refl refl refl

on_submit_refused_example :
    let page = record blank_page { is_loading = true } in
    ((mutation platform no_message read_item save api_url refusing).mutation_fn
        (filled "admin" "wrong")
        blank_page
      ≡ (throw (thrown undefined), page))
    × ((mutation platform no_message read_item save api_url refusing).on_error
          (thrown undefined)
          page
        ≡ (throw type_error, page))
on_submit_refused_example =
    on_submit_refused platform no_message read_item save api_url refusing "admin" "wrong" blank_page
      none unauthorized (λ p asks. refl) refl

abbrev typed_values : Props
typed_values = prop "appid" (string "app") (
    prop "name" (string "nightly") (
      prop "handler" (string "Report")
        (prop "timeConf" (string "0 0 * * *") (prop "alarmConf" (string "https://hook") empty))))

abbrev success_json : Value
success_json = object (prop "success" (boolean true) empty)

abbrev granted : BaseResponse Value
granted = record {
  code = undefined;
  success = boolean true;
  result = missing;
  message = undefined;
  trace_id = undefined;
}

typed_accepted : accepts required_schema typed_values ≡ some typed_values
unfolding fits known required_schema task_schema
typed_accepted = refl

submit_granted_example :
    (submit platform no_message read_item api_url
        (granting success_json)
        mutations
        library
        typed_values
        blank_page
      ≡ record blank_page {
        notices = success (string "创建成功") ∷ [];
        invalidated = "listTaskInfos" ∷ [];
        is_loading = false;
        is_open = false;
      })
    × ((as_task_info typed_values).alarm_content ≡ undefined)
unfolding add_task_response_base_response BaseResponse.codec BaseResponse.raw
submit_granted_example =
    submit_granted library typed_values typed_values typed_accepted platform no_message read_item
      api_url (granting success_json) mutations blank_page none (answered success_json) success_json
      granted (λ p asks. refl) refl refl refl refl

-- A task that is enabled.
abbrev enabled : Enabled
enabled = record { enabled = true; id = "7" }

grants :
    Grants platform no_message read_item api_url (granting success_json) mutations enabled none none
unfolding switch_task_status_response_base_response BaseResponse.codec BaseResponse.raw
grants = record {
  response = answered success_json;
  json = success_json;
  answer = granted;
  answers = λ p asks. refl;
  fine = refl;
  body = refl;
  decoded = refl;
  succeeds = refl;
}

on_checked_change_twice_example :
    let click =
      on_checked_change platform no_message read_item api_url
        (granting success_json)
        mutations
        enabled in
    ((click (click blank_page)).browser ≡ none) × ((click (click blank_page)).is_open ≡ true)
on_checked_change_twice_example =
    on_checked_change_twice platform no_message read_item api_url (granting success_json) mutations
      enabled blank_page none none grants grants

-- A field in an item, without an error.
abbrev name_field : Contexts
name_field = form_item "r1" (form_field "name" no_provider)

label_names_example :
    (attribute platform
        (λ n. undefined)
        "htmlFor"
        (form_label platform (λ n. undefined) name_field empty)
      ≡ id_of platform (λ n. undefined) control name_field undefined)
    ↔ ((control ≡ control) × (◌≡◌ {A = String} "r1" "r1"))
label_names_example =
    label_names platform (λ n. undefined) "r1" "r1" "name" "name" no_provider no_provider control
      undefined
