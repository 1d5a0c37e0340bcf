-- ===== src/Apis.antt =====
-- The patterns that the generated clients of ui/vite-opentask/src/apis-gen/apis repeat.
pub mod Bodies
pub mod Queries
pub mod TaskInfoApi
pub mod ClientApi
pub mod DashboardApi
pub mod TaskLogApi
pub mod UserApi
use open_task.Common as Results
use open_task.Common.{String, none, some, ok, throw, if◌then◌else◌}
use open_task.Js.Value.{
  Value, undefined, string, date, time, invalid, Props, empty, set_prop, is_nullish,
}
use open_task.Js.Text.{Platform}
use open_task.Js.Exception.{Response, Result, type_error, range_error}
use open_task.Models.Codec.{Codec, Nullable}
use open_task.Runtime.Io.{Io, pure, lift, ◌>>=◌}
use open_task.Runtime.Config.{FetchParams, api_key}
use open_task.Runtime.Fetch.{RequestOpts, InitOverrides, BaseApi, request, value}

-- `JSONApiResponse`: the response, and the transformer of its JSON.
pub record ApiResponse (A : Type 0) : Type 0 where
  pub raw : Response
  pub transformer : Value → Result A

-- `if (p != null) { query[k] = p; }`
abbrev pub set_query : String → Value → Props → Props
set_query k p query = if is_nullish p then query else set_prop query k p

-- `(p as any).toISOString()`
abbrev pub to_iso_string : Platform → Value → Result Value
to_iso_string d (date (time t)) = ok (string (d.iso t))
to_iso_string d (date invalid) = throw range_error
to_iso_string d _ = throw type_error

-- `if (p != null) { query[k] = (p as any).toISOString(); }`
abbrev pub set_date_query : Platform → String → Value → Props → Result Props
set_date_query d k p query =
    let text = to_iso_string d p in
    if is_nullish p then ok query else Results.◌>>=◌ text (λ v. ok (set_prop query k v))

abbrev pub json_headers : Props
json_headers = set_prop empty "Content-Type" (string "application/json")

module _ {W : Type 0} (d : Platform) (fetch : FetchParams → Io W Response) (api : BaseApi W) where
  -- The header of a configured key.
  unfoldable pub authorize : Props → Io W Props
  authorize headers = elim (api_key api.configuration) [
    | none ↦ pure headers
    | some key ↦ key "Authorization" >>= λ v. pure (set_prop headers "Authorization" v)
  ]

  -- A method that sends a model: its headers, its body and its request.
  unfoldable pub call_with_body :
      {A B : Type 0}
      → String
      → String
      → Codec A
      → Codec B
      → Nullable A
      → InitOverrides W
      → Io W (ApiResponse (Nullable B))
  unfolding authorize
  call_with_body path method request_codec response_codec model init_overrides = do
    headers ← authorize json_headers
    body ← lift (request_codec.to_json model)
    response ←
        request d fetch api
          (record {
            path = path;
            method = method;
            headers = headers;
            query = some empty;
            body = body;
          })
          init_overrides
    pure (record { raw = response; transformer = response_codec.from_json })

  -- A method that sends a query.
  unfoldable pub call_with_query :
      {B : Type 0} → String → Codec B → Props → InitOverrides W → Io W (ApiResponse (Nullable B))
  unfolding authorize
  call_with_query path response_codec query init_overrides = do
    headers ← authorize empty
    response ←
        request d fetch api
          (record {
            path = path;
            method = "GET";
            headers = headers;
            query = some query;
            body = undefined;
          })
          init_overrides
    pure (record { raw = response; transformer = response_codec.from_json })

-- `return await response.value();`
abbrev pub value_of : {W A : Type 0} → Io W (ApiResponse A) → Io W A
value_of call = call >>= λ response. value response.transformer response.raw
