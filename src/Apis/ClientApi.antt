-- ===== src/Apis/ClientApi.antt =====
-- ui/vite-opentask/src/apis-gen/apis/ClientApi.ts
use open_task.Js.Value.{Value, Props, empty}
use open_task.Js.Text.{Platform}
use open_task.Js.Exception.{Response}
use open_task.Models.Codec.{Nullable}
use open_task.Models.BaseResponse.{BaseResponse}
use open_task.Runtime.Io.{Io}
use open_task.Runtime.Config.{FetchParams}
use open_task.Runtime.Fetch.{InitOverrides, BaseApi}
use open_task.Models.ListClientsResponse.{ListClientsResponse}
use open_task.Models.Responses.{list_clients_response_base_response}
use open_task.Apis.{ApiResponse, set_query, call_with_query, value_of}

pub record ListClientsRequest : Type 0 where
  pub page_number : Value
  pub page_size : Value

-- `queryParameters` of `listClientsRaw`
abbrev pub list_clients_query : ListClientsRequest → Props
list_clients_query r = set_query "PageSize" r.page_size (set_query "PageNumber" r.page_number empty)

module _ {W : Type 0} (d : Platform) (fetch : FetchParams → Io W Response) (api : BaseApi W) where
  unfoldable pub list_clients_raw :
      ListClientsRequest
      → InitOverrides W
      → Io W (ApiResponse (Nullable (BaseResponse ListClientsResponse)))
  unfolding call_with_query
  list_clients_raw request_parameters =
      call_with_query d fetch api "/api/Client/ListClients" (list_clients_response_base_response d)
        (list_clients_query request_parameters)

  unfoldable pub list_clients :
      ListClientsRequest → InitOverrides W → Io W (Nullable (BaseResponse ListClientsResponse))
  unfolding list_clients_raw
  list_clients request_parameters init_overrides =
      value_of (list_clients_raw request_parameters init_overrides)
