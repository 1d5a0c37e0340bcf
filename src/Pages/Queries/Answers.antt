-- ===== src/Pages/Queries/Answers.antt =====
-- The page of tasks, from the answer of the network to what is rendered.
use open_task.Common.{
  ℕ, ◌+◌, ◌==◌, List, [], ◌∷◌, String, ◌<>◌, ◌≡◌, refl, true, false, Option, none, some, ok, throw,
  eqb, ◌∙◌,
}
use open_task.Common.Int.{ℤ, pos}
use open_task.Js.Value.{
  boolean, number, object, Value, undefined, string, Props, get_prop, get_prop-set_prop,
}
use open_task.Js.Text.{Platform}
use open_task.Js.Exception.{Exception, Response, thrown, type_error}
use open_task.Models.Codec.{Nullable, missing, given, is_string, IsOptional}
use open_task.Models.BaseResponse.{BaseResponse, succeeded, from_json_succeeded}
use open_task.Models.BaseResponse
use open_task.Models.ListTaskInfosResponse
use open_task.Models.TaskInfo.{TaskInfo}
use open_task.Js.Json.{wire}
use open_task.Models.ListTaskInfosResponse.{ListTaskInfosResponse}
use open_task.Models.Responses.{list_task_infos_response_base_response}
use open_task.Runtime.Io.{Io}
use open_task.Runtime.Config.{FetchParams, api_key, base_path}
use open_task.Runtime.Fetch.{new_api, no_overrides}
use open_task.Apis.Queries.{Asks, ReadsAs, asked}
use open_task.Apis.TaskInfoApi.{list_task_infos, list_task_infos_raw}
use open_task.Apis.TaskInfoApi.Listing.{list_task_infos_raw-Asks}
use open_task.AppConfig.{config, stored_token, authorized}
use open_task.AppConfig.Answers.{value_of_answered, value_of_refused}
use open_task.Pages.Queries.{
  PaginationState, ColumnFilters, find_filter, task_infos_request, table, task_infos_view,
  page_view, settled_view, answered_view, list_table,
}

-- The GET of a path from whose URL a server reads the parameters.
pub record AsksFor (d : Platform) (api_url path : String) (parameters : Props) (p : FetchParams)
    : Type 0 where
  pub suffix : String
  pub goes_to : p.url ≡ api_url <> (path <> suffix)
  pub says : ReadsAs d suffix parameters
  pub by_method : get_prop p.init "method" ≡ string "GET"

-- The value of the first filter by name, undefined if there is none.
pub data NameFilter : ColumnFilters → Value → Type 0 where
  no_filter : NameFilter [] undefined
  by_name : (value : Value) (rest : ColumnFilters) → NameFilter (("name", value) ∷ rest) value
  later_filter :
      (id : String) (value name : Value) (rest : ColumnFilters)
      → (id == "name") ≡ false
      → NameFilter rest name
      → NameFilter ((id, value) ∷ rest) name

find_filter-NameFilter :
    {filters : ColumnFilters} {name : Value}
    → NameFilter filters name
    → find_filter "name" filters ≡ name
unfolding find_filter
find_filter-NameFilter no_filter = refl
find_filter-NameFilter (by_name value rest) = refl
find_filter-NameFilter (later_filter id value name rest h f) = rw h (find_filter-NameFilter f)

-- The parameters of the request for a page: its number counts from 1, its index from 0.
abbrev page_parameters : Value → ℕ → ℕ → Props
page_parameters name page_index page_size = asked (
    ("Name", name)
    ∷ ("PageNumber", number (pos (page_index + 1)))
    ∷ ("PageSize", number (pos page_size))
    ∷ [])

module _ {W : Type 0} (d : Platform) (platform_message : Exception → String)
    (parse_int : Value → Option ℤ) (get_item : W → String → Option String) (api_url : String)
    (fetch : FetchParams → Io W Response) (pagination : PaginationState) (filters : ColumnFilters)
    (name : Value) (filtered : NameFilter filters name) (named : IsOptional is_string name)
    (w w₂ : W) (response : Response)
    (answers : (p : FetchParams)
      → AsksFor d api_url "/api/TaskInfo/ListTaskInfos"
          (page_parameters name pagination.page_index pagination.page_size)
          p
      → fetch p w ≡ (ok response, w₂)) where
  asks :
      Asks d
        (new_api (config get_item api_url))
        "/api/TaskInfo/ListTaskInfos"
        list_task_infos_response_base_response
        (page_parameters name pagination.page_index pagination.page_size)
        (λ fetch.
          list_task_infos_raw d fetch
            (new_api (config get_item api_url))
            (task_infos_request pagination filters)
            no_overrides)
  unfolding api_key config new_api task_infos_request
  asks = rw (find_filter-NameFilter filtered) (
      list_task_infos_raw-Asks d (new_api (config get_item api_url))
        (record {
          name = name;
          page_number = number (pos (pagination.page_index + 1));
          page_size = number (pos pagination.page_size);
        })
        refl refl named refl refl)

  abbrev request : FetchParams
  request = authorized get_item (stored_token get_item w) asks.params

  fetched : fetch request w ≡ (ok response, w₂)
  unfolding authorized config new_api base_path
  fetched = answers request (record {
    suffix = asks.suffix;
    goes_to = asks.goes_to;
    says = asks.says;
    by_method = get_prop-set_prop _ _ _ _ ∙ asks.by_method;
  })

  -- For filters of which the first by name, if there is one, has a text as its value or none, and a
  -- network that answers the GET of /api/TaskInfo/ListTaskInfos with that name, the index of the
  -- page plus one as its number, and its size, by a 200 with an object whose success is true and
  -- whose result is a well-typed page of tasks as JSON: the call resolves with an envelope of which
  -- the page of tasks shows the table of exactly these tasks, with the total that parseInt reads
  -- from their count.
  pub task_infos_shown :
      (ps : Props) (page : ListTaskInfosResponse) (rows : List (Nullable TaskInfo)) (sent : Value)
      → response.status ≡ 200
      → response.json ≡ some (object ps)
      → get_prop ps "success" ≡ boolean true
      → get_prop ps "result" ≡ wire d sent
      → ListTaskInfosResponse.to_json (given page) ≡ ok sent
      → ListTaskInfosResponse.IsWellTyped page
      → page.rows ≡ given rows
      → (answer : BaseResponse ListTaskInfosResponse) × (list_task_infos d fetch
            (new_api (config get_item api_url))
            (task_infos_request pagination filters)
            no_overrides
            w
          ≡ (ok (given answer), w₂))
        × (task_infos_view parse_int platform_message
              (record { is_pending = false; error = none; answer = given answer })
            ≡ ok (table rows (parse_int page.count)))
  unfolding list_task_infos task_infos_view page_view settled_view answered_view list_table
      list_task_infos_response_base_response BaseResponse.codec ListTaskInfosResponse.codec
  task_infos_shown ps page rows sent fine body succeeds arrived encoded typed listed = (
    succeeded ps page,
    value_of_answered get_item api_url fetch list_task_infos_response_base_response
          (λ fetch.
            list_task_infos_raw d fetch (new_api (config get_item api_url))
              (task_infos_request pagination filters) no_overrides)
          asks.params asks.calls response (object ps) w w₂ fetched fine body
        ∙ rw
            (from_json_succeeded d ListTaskInfosResponse.codec
              (ListTaskInfosResponse.codec-IsLawful d) ps page sent succeeds arrived encoded typed)
            refl,
    rw listed refl,
  )

  -- For filters whose name is a text or absent, and a network that answers the request for the page
  -- of tasks by another status than 200, the call rejects with undefined, and the page of a query
  -- that ended with that reason and has no data throws a TypeError instead of showing a message.
  pub task_infos_refused :
      eqb response.status 200 ≡ false
      → (list_task_infos d fetch
            (new_api (config get_item api_url))
            (task_infos_request pagination filters)
            no_overrides
            w
          ≡ (throw (thrown undefined), w₂))
        × (task_infos_view parse_int platform_message
              (record { is_pending = false; error = some (thrown undefined); answer = missing })
            ≡ throw type_error)
  unfolding list_task_infos task_infos_view page_view settled_view answered_view
  task_infos_refused other = (
    value_of_refused get_item api_url fetch list_task_infos_response_base_response
        (λ fetch.
          list_task_infos_raw d fetch (new_api (config get_item api_url))
            (task_infos_request pagination filters) no_overrides)
        asks.params asks.calls response w w₂ fetched other,
    refl,
  )
