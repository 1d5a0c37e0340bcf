-- ===== src/Apis/TaskInfoApi/Listing.antt =====
-- The request for a page of tasks.
use open_task.Common.{◌≡◌, none, [], ◌∷◌, arith}
use open_task.Js.Value.{Props, set_prop}
use open_task.Js.Text.{Platform}
use open_task.Models.Codec.{is_string, is_number, IsOptional}
use open_task.Runtime.Config.{api_key}
use open_task.Runtime.Fetch.{no_overrides, BaseApi}
use open_task.Apis.Queries.{
  Asks, asked, call_with_query-Asks, asked-IsFlat, string_primitive, number_primitive,
}
use open_task.Models.Responses.{list_task_infos_response_base_response}
use open_task.Apis.TaskInfoApi.{ListTaskInfosRequest, list_query, list_task_infos_raw}

abbrev pub parameters : ListTaskInfosRequest → Props
parameters r =
    asked (("Name", r.name) ∷ ("PageNumber", r.page_number) ∷ ("PageSize", r.page_size) ∷ [])

list_query-asked : (r : ListTaskInfosRequest) → list_query r ≡ parameters r
unfolding set_prop
list_query-asked r = ground arith

-- For a name that is a text or absent, a page and a size that are numbers or absent, a configuration
-- with neither a key nor a stringifier of its own, and no override, listTaskInfosRaw is the fetch of
-- a GET of /api/TaskInfo/ListTaskInfos whose URL has no query if all three are absent, and otherwise
-- one from which a server reads those that are given, under the names Name, PageNumber and PageSize
-- and in this order.
pub list_task_infos_raw-Asks :
    {W : Type 0} (d : Platform) (api : BaseApi W) (r : ListTaskInfosRequest)
    → api_key api.configuration ≡ none
    → api.configuration.query_params_stringify ≡ none
    → IsOptional is_string r.name
    → IsOptional is_number r.page_number
    → IsOptional is_number r.page_size
    → Asks d api "/api/TaskInfo/ListTaskInfos" list_task_infos_response_base_response
        (parameters r)
        (λ fetch. list_task_infos_raw d fetch api r no_overrides)
unfolding list_task_infos_raw
list_task_infos_raw-Asks d api r no_key own name page size = rw (list_query-asked r) (
    call_with_query-Asks d api "/api/TaskInfo/ListTaskInfos" list_task_infos_response_base_response
      (parameters r) no_key own
      (asked-IsFlat (("PageNumber", r.page_number) ∷ ("PageSize", r.page_size) ∷ []) "Name" r.name
        (asked-IsFlat (("PageSize", r.page_size) ∷ []) "PageNumber" r.page_number
          (asked-IsFlat [] "PageSize" r.page_size tt (number_primitive r.page_size size))
          (number_primitive r.page_number page))
        (string_primitive r.name name)))
