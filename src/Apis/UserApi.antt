-- ===== src/Apis/UserApi.antt =====
-- ui/vite-opentask/src/apis-gen/apis/UserApi.ts
pub mod Requests
use open_task.Js.Text.{Platform}
use open_task.Js.Exception.{Response}
use open_task.Models.Codec.{Nullable}
use open_task.Models.BaseResponse.{BaseResponse}
use open_task.Runtime.Io.{Io}
use open_task.Runtime.Config.{FetchParams}
use open_task.Runtime.Fetch.{InitOverrides, BaseApi}
use open_task.Models.LoginCommand
use open_task.Models.LoginCommand.{LoginCommand}
use open_task.Models.LoginResponse.{LoginResponse}
use open_task.Models.Responses.{login_response_base_response}
use open_task.Apis.{ApiResponse, call_with_body, value_of}

pub record LoginRequest : Type 0 where
  pub login_command : Nullable LoginCommand

module _ {W : Type 0} (d : Platform) (fetch : FetchParams → Io W Response) (api : BaseApi W) where
  unfoldable pub login_raw :
      LoginRequest → InitOverrides W → Io W (ApiResponse (Nullable (BaseResponse LoginResponse)))
  unfolding call_with_body
  login_raw request_parameters =
      call_with_body d fetch api "/api/User/Login" "POST" LoginCommand.codec
        login_response_base_response request_parameters.login_command

  unfoldable pub login :
      LoginRequest → InitOverrides W → Io W (Nullable (BaseResponse LoginResponse))
  unfolding login_raw
  login request_parameters init_overrides = value_of (login_raw request_parameters init_overrides)
