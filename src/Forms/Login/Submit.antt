-- ===== src/Forms/Login/Submit.antt =====
-- What a page becomes when its login is submitted.
use open_task.Common.{
  String, ◌<>◌, ◌==◌, ◌≡◌, refl, true, false, Option, some, ok, throw, eqb, ◌∙◌, ◌∷◌, Outcome,
}
use open_task.Js.Value.{Value, undefined, string, truthy}
use open_task.Js.Text.{Platform}
use open_task.Js.Stringify.{stringify}
use open_task.Js.Stringify.Plain.{is_plain}
use open_task.Js.Exception.{Exception, Response, thrown, type_error, fetch_error, is_error}
use open_task.Models.Codec.{Nullable, given}
use open_task.Models.BaseResponse.{BaseResponse}
use open_task.Models.LoginCommand
use open_task.Models.LoginCommand.{LoginCommand}
use open_task.Models.LoginResponse.{LoginResponse}
use open_task.Models.Responses.{login_response_base_response}
use open_task.Runtime.Io.{Io}
use open_task.Runtime.Config.{FetchParams, api_key}
use open_task.Runtime.Fetch.{new_api, no_overrides, no_alternative_message}
use open_task.Apis.{value_of}
use open_task.Apis.Bodies.{Sends}
use open_task.Apis.UserApi.{login, login_raw}
use open_task.Apis.UserApi.Requests.{login_raw-Sends}
use open_task.AppConfig.{config, stored_token}
use open_task.AppConfig.Token.{stored_token-stringify}
use open_task.Forms.{
  Page, success, failure, MutationOptions, Mutations, show, set_loading, transport, read_item,
  console, show_error, message,
}
use open_task.Forms.Calls.{Answers, call_answered, call_refused, call_failed}
use open_task.Forms.Login.{
  FormData, text, mutation, mutation_fn, on_success, on_submit, enter, token_of, required,
}

abbrev pub filled : String → String → FormData
filled name password = record { name = some (text name); password = some (text password) }

abbrev pub command : String → String → LoginCommand
command name password = record { user_name = string name; password = string password }

module _ {N : Type 0} (d : Platform) (platform_message : Exception → String)
    (get_item : N → String → Option String) (set_token : Value → N → N) (api_url : String)
    (fetch : FetchParams → Io N Response) (name password : String) (w : Page N) (n : N) where
  sends :
      Sends d
        (console get_item api_url)
        "/api/User/Login"
        "POST"
        LoginCommand.codec
        login_response_base_response
        (command name password)
        (λ fetch.
          login_raw d fetch
            (console get_item api_url)
            (record { login_command = given (command name password) })
            no_overrides)
  unfolding api_key console config new_api
  sends =
      login_raw-Sends d (console get_item api_url) (command name password)
        (record { user_name = refl; password = refl }) refl refl

  -- The page while the login is on its way, and when an answer has come.
  abbrev pub loading : Page N
  loading = set_loading true w

  abbrev pub arrived : Page N
  arrived = record loading { browser = n }

  abbrev pub options : MutationOptions (Page N) FormData (Nullable (BaseResponse LoginResponse))
  options = mutation d platform_message get_item set_token api_url fetch

  -- The network answers the login by `r`.
  abbrev pub AnswersLogin : Outcome Exception Response → Type 0
  AnswersLogin r =
      Answers d fetch (api_url <> ("/api/User/Login" <> "")) "POST" LoginCommand.codec
        (command name password) w.browser r n

  called :
      options.mutation_fn (filled name password) w
      ≡ value_of
          (login_raw d
            (transport fetch)
            (console get_item api_url)
            (record { login_command = given (command name password) })
            no_overrides)
          loading
  unfolding mutation mutation_fn required login
  called = refl

  -- The mutation's result, when the answer is a 200 with JSON.
  answered :
      (response : Response) (json : Value)
      → AnswersLogin (ok response)
      → response.status ≡ 200
      → response.json ≡ some json
      → options.mutation_fn (filled name password) w
        ≡ (login_response_base_response.from_json json, arrived)
  answered response json h fine body =
      called ∙ call_answered get_item d api_url sends fetch loading n response json h fine body

  -- When the network answers the login of a name and a password by a 200 with JSON, from which the
  -- client reads an envelope of success with a token that is not empty and has no quotation marks,
  -- backslashes and control characters, and the storage then holds the token's JSON, the form leads
  -- the page to / with the message of success, is no longer loading and changes nothing else but the
  -- browser, and the stored token, which the client's calls carry, is that token.
  pub on_submit_granted :
      (m : Mutations (Page N)) (response : Response) (json : Value)
      (answer : BaseResponse LoginResponse) (token stored : String)
      → AnswersLogin (ok response)
      → response.status ≡ 200
      → response.json ≡ some json
      → login_response_base_response.from_json json ≡ ok (given answer)
      → truthy answer.success ≡ true
      → token_of answer.result ≡ string token
      → (token == "") ≡ false
      → is_plain token ≡ true
      → stringify d (string token) ≡ string stored
      → get_item (set_token (string token) n) "token" ≡ some stored
      → let w' =
          on_submit d platform_message get_item set_token api_url fetch m
            (filled name password)
            w in
        (w' ≡ record w {
          browser = set_token (string token) n;
          notices = success (string "登录成功") ∷ w.notices;
          path = "/";
          is_loading = false;
        })
        × (stored_token (read_item get_item) w' ≡ token)
  unfolding on_submit mutation on_success enter
  on_submit_granted m response json answer token stored h fine body decoded succeeds held some_token
        plain written kept =
      let entered = enter set_token (string token) arrived in
      let e =
        m.resolves options (filled name password) (given answer) w arrived entered
          (answered response json h fine body ∙ rw decoded) (rw (succeeds, held, some_token)) in
      (e, rw e (stored_token-stringify d (read_item get_item) token stored _ plain written kept))

  -- When the network answers the login by another status than 200, the form's call rejects with
  -- undefined, of which its onError can show no message: it throws a TypeError and leaves the page
  -- as it is.
  pub on_submit_refused :
      (response : Response)
      → AnswersLogin (ok response)
      → eqb response.status 200 ≡ false
      → (options.mutation_fn (filled name password) w ≡ (throw (thrown undefined), arrived))
        × (options.on_error (thrown undefined) arrived ≡ (throw type_error, arrived))
  unfolding mutation show_error message
  on_submit_refused response h other =
      (called ∙ call_refused get_item d api_url sends fetch loading n response h other, refl)

  -- When the network fails with an Error, the form shows the client's message, and nothing else
  -- changes but the browser.
  pub on_submit_failed :
      (m : Mutations (Page N)) (e : Exception)
      → AnswersLogin (throw e)
      → is_error e ≡ true
      → on_submit d platform_message get_item set_token api_url fetch m (filled name password) w
        ≡ record w {
          browser = n;
          notices = failure (string no_alternative_message) ∷ w.notices;
          is_loading = false;
        }
  unfolding on_submit mutation show_error message
  on_submit_failed m e h error =
      m.rejects options (filled name password) (fetch_error e no_alternative_message) w arrived
        (show (failure (string no_alternative_message)) arrived)
        (called ∙ call_failed get_item d api_url sends fetch loading n e h ∙ rw error) refl
