-- ===== src/Apis/UserApi/Requests.antt =====
-- The request of a login.
use open_task.Common.{◌≡◌, true, none}
use open_task.Js.Value.{has_distinct_keys}
use open_task.Js.Text.{Platform}
use open_task.Models.Codec.{given}
use open_task.Runtime.Config.{api_key}
use open_task.Runtime.Fetch.{no_overrides, BaseApi}
use open_task.Runtime.Fetch.Headers.{configured}
use open_task.Apis.Bodies.{Sends, call_with_body-Sends}
use open_task.Models.LoginCommand
use open_task.Models.LoginCommand.{LoginCommand}
use open_task.Models.Responses.{login_response_base_response}
use open_task.Apis.UserApi.{login_raw}

module _ {W : Type 0} (d : Platform) (api : BaseApi W) where
  -- For a name and a password that are texts, a configuration without a key whose headers have
  -- distinct names, and no override, loginRaw is the fetch of a POST to /api/User/Login with the
  -- JSON content type and the JSON text of an object from which the decoder reads the same name and
  -- password; the response is then judged by its status and left to the decoder of
  -- LoginResponseBaseResponse.
  pub login_raw-Sends :
      (m : LoginCommand)
      → LoginCommand.IsWellTyped m
      → api_key api.configuration ≡ none
      → has_distinct_keys (configured api.configuration) ≡ true
      → Sends d api "/api/User/Login" "POST" LoginCommand.codec login_response_base_response m
          (λ fetch. login_raw d fetch api (record { login_command = given m }) no_overrides)
  unfolding login_raw
  login_raw-Sends m t no_key distinct =
      call_with_body-Sends d api "/api/User/Login" "POST" LoginCommand.codec
        login_response_base_response m no_key distinct (LoginCommand.codec-Carries d m t)
