-- ===== src/Runtime/Fetch.antt =====
-- `BaseAPI` of ui/vite-opentask/src/apis-gen/runtime.ts: how a call becomes a request, passes the
-- middleware, and becomes a response or an exception.
pub mod Middlewares
pub mod Recovery
pub mod Headers
pub mod Requests
use open_task.Common.{
  ℕ, String, ◌<>◌, Bool, true, false, Option, none, some, List, [], ◌∷◌, ◌++◌, map, ok, throw, leb,
  ltb, ◌&&◌, ◌||◌, if◌then◌else◌,
}
use open_task.Common as Results
use open_task.Js.Value.{
  Value, undefined, string, object, host, Props, empty, prop, get_prop, assign, delete_undefined,
  has_keys,
}
use open_task.Js.Text.{Platform}
use open_task.Js.Stringify.{stringify}
use open_task.Js.Exception.{
  Exception, Response, Result, is_error, syntax_error, response_error, fetch_error,
}
use open_task.Runtime.Io.{Io, pure, raise, lift, ◌>>=◌, try_catch}
use open_task.Runtime.Mime.{is_json_mime}
use open_task.Runtime.Config.{
  FetchParams, ErrorContext, ResponseContext, Middleware, ConfigurationParameters, base_path,
  middleware, query_params_stringify,
}

pub record RequestOpts : Type 0 where
  pub path : String
  pub method : String
  pub headers : Props
  pub query : Option Props
  pub body : Value

-- `RequestInit | InitOverrideFunction | undefined`
pub data InitOverrides (W : Type 0) : Type 0 where
  no_overrides : InitOverrides W
  overrides : Props → InitOverrides W
  override_function : (Props → RequestOpts → Io W Props) → InitOverrides W

-- The message of the exceptions.
abbrev pub error_code_message : String
error_code_message = "Response returned an error code"

abbrev pub no_alternative_message : String
no_alternative_message =
    "The request failed and the interceptors did not return an alternative response"

-- `a || b`, where an object is never falsy
abbrev pub or_else {ℓ} : {A : Type ℓ} → Option A → A → A
or_else none b = b
or_else (some a) b = a

abbrev pub or_keep : {A : Type 0} → Option A → Option A → Option A
or_keep none b = b
or_keep (some a) b = some a

-- `isFormData(body) || body instanceof URLSearchParams || isBlob(body)`
abbrev is_host : Value → Bool
is_host (host h) = true
is_host _ = false

-- `isJsonMime(headers['Content-Type'])`: a header is a text or undefined.
abbrev is_json_header : Value → Bool
is_json_header (string mime) = is_json_mime mime
is_json_header _ = false

unfoldable pub encoded_body : Platform → Props → Value → Value
encoded_body d headers body =
    if is_host body
    then body
    else if is_json_header (get_prop headers "Content-Type")
    then stringify d body
    else body

-- A `BaseAPI`: its configuration and its own list of middleware.
pub record BaseApi (W : Type 0) : Type 0 where
  pub configuration : ConfigurationParameters W
  pub middlewares : List (Middleware W)

abbrev pub as_pre : {W : Type 0} → Option (FetchParams → Io W (Option FetchParams)) → Middleware W
as_pre pre = record { pre = pre; post = none; on_error = none }

abbrev pub as_post : {W : Type 0} → Option (ResponseContext → Io W (Option Response)) → Middleware W
as_post post = record { pre = none; post = post; on_error = none }

module _ {W : Type 0} where
  unfoldable pub new_api : ConfigurationParameters W → BaseApi W
  new_api c = record { configuration = c; middlewares = middleware c }

  -- `clone` and `withMiddleware`
  unfoldable pub with_middleware : BaseApi W → List (Middleware W) → BaseApi W
  with_middleware api ms = record api { middlewares = api.middlewares ++ ms }

  unfoldable pub with_pre_middleware :
      BaseApi W → List (Option (FetchParams → Io W (Option FetchParams))) → BaseApi W
  unfolding with_middleware
  with_pre_middleware api pres = with_middleware api (map as_pre pres)

  unfoldable pub with_post_middleware :
      BaseApi W → List (Option (ResponseContext → Io W (Option Response))) → BaseApi W
  unfolding with_middleware
  with_post_middleware api posts = with_middleware api (map as_post posts)

  -- The loop over `middleware.pre`.
  unfoldable pub run_pre : List (Middleware W) → FetchParams → Io W FetchParams
  run_pre [] params = pure params
  run_pre (m ∷ ms) params = elim (m.pre) [
    | none ↦ run_pre ms params
    | some pre ↦ pre params >>= λ changed. run_pre ms (or_else changed params)
  ]

  -- The loop over `middleware.onError`, from what the earlier ones answered.
  unfoldable pub run_on_error :
      List (Middleware W) → FetchParams → Exception → Option Response → Io W (Option Response)
  run_on_error [] params e response = pure response
  run_on_error (m ∷ ms) params e response = elim (m.on_error) [
    | none ↦ run_on_error ms params e response
    | some handler ↦
        handler (record { url = params.url; init = params.init; error = e; response = response })
        >>= λ answer. run_on_error ms params e (or_keep answer response)
  ]

  -- The loop over `middleware.post`.
  unfoldable pub run_post : List (Middleware W) → FetchParams → Response → Io W Response
  run_post [] params response = pure response
  run_post (m ∷ ms) params response = elim (m.post) [
    | none ↦ run_post ms params response
    | some post ↦
        post (record { url = params.url; init = params.init; response = response }) >>= λ answer.
        run_post ms params (or_else answer response)
  ]

  -- What the handlers left: their response, or the exception for the caller.
  unfoldable pub recovered : Exception → Option Response → Io W Response
  recovered e (some response) = pure response
  recovered e none = if is_error e then raise (fetch_error e no_alternative_message) else raise e

  -- `this.configuration.fetchApi || fetch`
  abbrev pub transport : (FetchParams → Io W Response) → BaseApi W → FetchParams → Io W Response
  transport fetch api = or_else api.configuration.fetch_api fetch

  -- `fetchApi`; `fetch` is the platform's.
  unfoldable pub fetch_api : (FetchParams → Io W Response) → BaseApi W → FetchParams → Io W Response
  unfolding recovered
  fetch_api fetch api params = do
    params' ← run_pre api.middlewares params
    response ←
        try_catch (transport fetch api params')
          (λ e. run_on_error api.middlewares params' e none >>= recovered e)
    run_post api.middlewares params' response

  overridden : InitOverrides W → Props → RequestOpts → Io W Props
  overridden no_overrides init context = pure empty
  overridden (overrides ps) init context = pure ps
  overridden (override_function f) init context = f init context

  -- The configured headers, then those of the call over them, without the undefined ones.
  unfoldable pub merged_headers : ConfigurationParameters W → Props → Props
  merged_headers c headers =
      delete_undefined (assign (assign empty (or_else (c.headers) empty)) headers)

  unfoldable pub init_params : RequestOpts → ConfigurationParameters W → Props → Props
  init_params context c headers = prop "method" (string context.method) (
      prop "headers" (object headers)
        (prop "body" context.body (prop "credentials" c.credentials empty)))

  -- `if (response && (response.status >= 200 && response.status < 300))`
  unfoldable pub accepted : Response → Io W Response
  accepted response =
      if leb 200 response.status && ltb response.status 300
      then pure response
      else raise (response_error response error_code_message)

  module _ (d : Platform) where
    -- The text behind the base path and the path, if there is any parameter.
    query_suffix : ConfigurationParameters W → Option Props → Result String
    query_suffix c none = ok ""
    query_suffix c (some query) =
        if has_keys query
        then Results.◌>>=◌ (query_params_stringify d c query) (λ text. ok ("?" <> text))
        else ok ""

    -- The init of the call, with the overrides over it and the body encoded.
    unfoldable pub final_init : BaseApi W → RequestOpts → Props → Props
    final_init api context extra =
        let headers = merged_headers api.configuration context.headers in
        let full = assign (init_params context api.configuration headers) extra in
        assign full (prop "body" (encoded_body d headers (get_prop full "body")) empty)

    -- `createFetchParams`
    unfoldable pub create_fetch_params :
        BaseApi W → RequestOpts → InitOverrides W → Io W FetchParams
    unfolding query_suffix overridden
    create_fetch_params api context init_overrides = do
      let c = api.configuration
      suffix ← lift (query_suffix c context.query)
      let init = init_params context c (merged_headers c context.headers)
      extra ← overridden init_overrides init context
      pure (record {
        url = base_path c <> (context.path <> suffix);
        init = final_init api context extra;
      })

    -- `request`
    unfoldable pub request :
        (FetchParams → Io W Response) → BaseApi W → RequestOpts → InitOverrides W → Io W Response
    unfolding create_fetch_params fetch_api accepted
    request fetch api context init_overrides = do
      params ← create_fetch_params api context init_overrides
      response ← fetch_api fetch api params
      accepted response

-- `JSONApiResponse.value`: the body read as JSON, through the transformer.
unfoldable pub value : {W A : Type 0} → (Value → Result A) → Response → Io W A
value transformer response = elim (response.json) [
  | none ↦ raise syntax_error
  | some json ↦ lift (transformer json)
]
