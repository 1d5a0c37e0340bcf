-- ===== src/Forms/Login.antt =====
-- ui/vite-opentask/src/pages/login/components/user-auth-form.tsx
pub mod Submit
use open_task.Common.{String, true, false, Option, none, some, not, if◌then◌else◌}
use open_task.Js.Value.{Value, undefined, string, truthy}
use open_task.Js.Text.{Platform}
use open_task.Js.Exception.{Exception, Response, type_error, plain_error}
use open_task.Models.Codec.{Nullable, missing, nulled, given}
use open_task.Models.BaseResponse.{BaseResponse}
use open_task.Models.LoginCommand.{LoginCommand}
use open_task.Models.LoginResponse.{LoginResponse}
use open_task.Runtime.Io.{Io, pure, raise, ◌>>=◌}
use open_task.Runtime.Config.{FetchParams}
use open_task.Runtime.Fetch.{no_overrides}
use open_task.Apis.UserApi
use open_task.Forms.{
  Page, success, failure, MutationOptions, Mutations, change, show, set_loading, transport, console,
  show_error,
}

-- An entry of a `FormData`: a text, or a file, which `toString` names by its class.
pub data FormEntry : Type 0 where
  text : String → FormEntry
  file : FormEntry

-- `formData.get(key)?.valueOf().toString()`
abbrev pub entry_text : Option FormEntry → Option String
entry_text none = none
entry_text (some (text s)) = some s
entry_text (some file) = some "[object File]"

-- The entries that the form reads.
pub record FormData : Type 0 where
  pub name : Option FormEntry
  pub password : Option FormEntry

-- `value ?? (() => { throw new Error(message); })()`
unfoldable pub required : {W : Type 0} → Option String → String → Io W String
required none message = raise (plain_error message)
required (some s) message = pure s

-- `data?.result?.token`
abbrev pub token_of : Nullable LoginResponse → Value
token_of (given result) = result.token
token_of missing = undefined
token_of nulled = undefined

-- The end of `onSuccess`, for a token; `set_token` is that of the atom, which writes the browser's
-- storage.
unfoldable pub enter : {N : Type 0} → (Value → N → N) → Value → Page N → Page N
enter set_token token w = record (show (success (string "登录成功")) w) {
  browser = set_token token w.browser;
  path = "/";
}

module _ {N : Type 0} (d : Platform) (platform_message : Exception → String)
    (get_item : N → String → Option String) (set_token : Value → N → N) (api_url : String)
    (fetch : FetchParams → Io N Response) where
  unfoldable pub mutation_fn : FormData → Io (Page N) (Nullable (BaseResponse LoginResponse))
  unfolding required
  mutation_fn form_data = do
    name ← required (entry_text form_data.name) "Name is not defined"
    password ← required (entry_text form_data.password) "Password is not defined"
    _ ← change (set_loading true)
    UserApi.login d (transport fetch) (console get_item api_url)
        (record {
          login_command = given (record { user_name = string name; password = string password });
        })
        no_overrides

  unfoldable pub on_success : Nullable (BaseResponse LoginResponse) → Io (Page N) (Unit {0})
  on_success missing = raise type_error
  on_success nulled = raise type_error
  on_success (given response) =
      let token = token_of response.result in
      if not (truthy response.success)
      then change (show (failure response.message))
      else if not (truthy token)
      then change (show (failure (string "返回值异常")))
      else change (enter set_token token)

  unfoldable pub mutation :
      MutationOptions (Page N) FormData (Nullable (BaseResponse LoginResponse))
  unfolding mutation_fn on_success
  mutation = record {
    mutation_fn = mutation_fn;
    on_success = on_success;
    on_error = show_error platform_message;
    on_settled = change (set_loading false);
  }

  -- `onSubmit`
  unfoldable pub on_submit : Mutations (Page N) → FormData → Page N → Page N
  on_submit m form_data = m.mutate mutation form_data
