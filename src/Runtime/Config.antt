-- ===== src/Runtime/Config.antt =====
-- `Configuration` of ui/vite-opentask/src/apis-gen/runtime.ts, and the middleware that it names. A
-- middleware's contexts are given without the field `fetch`: none of the console's makes a call of
-- its own.
pub mod Getters
use open_task.Common.{String, ◌==◌, Option, none, some, List, [], if◌then◌else◌}
use open_task.Js.Value.{Value, Props}
use open_task.Js.Text.{Platform}
use open_task.Js.Exception.{Exception, Response, Result}
use open_task.Runtime.Io.{Io, pure}
use open_task.Runtime.Query.{querystring}

-- `FetchParams`: `init` is the object of a `RequestInit`.
pub record FetchParams : Type 0 where
  pub url : String
  pub init : Props

pub record ErrorContext : Type 0 where
  pub url : String
  pub init : Props
  pub error : Exception
  pub response : Option Response

pub record ResponseContext : Type 0 where
  pub url : String
  pub init : Props
  pub response : Response

module _ (W : Type 0) where
  -- A handler that resolves to nothing gives `none`.
  pub record Middleware : Type 0 where
    pub pre : Option (FetchParams → Io W (Option FetchParams))
    pub post : Option (ResponseContext → Io W (Option Response))
    pub on_error : Option (ErrorContext → Io W (Option Response))

  -- `apiKey`: a text or a promise of one, or a function of the header's name.
  pub data ApiKey : Type 0 where
    key : String → ApiKey
    promised : Io W Value → ApiKey
    key_of : (String → Io W Value) → ApiKey

  pub record ConfigurationParameters : Type 0 where
    pub base_path : Option String
    pub fetch_api : Option (FetchParams → Io W Response)
    pub middleware : Option (List Middleware)
    pub query_params_stringify : Option (Props → Result String)
    pub username : Option String
    pub password : Option String
    pub api_key : Option ApiKey
    pub access_token : Option ApiKey
    pub headers : Option Props
    pub credentials : Value

-- `"http://localhost".replace(/\\/+$/, "")`
abbrev pub default_base_path : String
default_base_path = "http://localhost"

-- The getters of `Configuration`.
module _ {W : Type 0} where
  unfoldable pub base_path : ConfigurationParameters W → String
  base_path c = elim (c.base_path) [ none ↦ default_base_path | some path ↦ path ]

  unfoldable pub middleware : ConfigurationParameters W → List (Middleware W)
  middleware c = elim (c.middleware) [ none ↦ [] | some ms ↦ ms ]

  unfoldable pub query_params_stringify :
      Platform → ConfigurationParameters W → Props → Result String
  query_params_stringify d c = elim (c.query_params_stringify) [
    | none ↦ λ params. querystring d params ""
    | some stringify ↦ stringify
  ]

  -- A text that is empty counts as no key.
  key_function : ApiKey W → Option (String → Io W Value)
  key_function (key text) = if text == "" then none else some (λ name. pure (Value.string text))
  key_function (promised text) = some (λ name. text)
  key_function (key_of f) = some f

  unfoldable pub api_key : ConfigurationParameters W → Option (String → Io W Value)
  unfolding key_function
  api_key c = elim (c.api_key) [ none ↦ none | some k ↦ key_function k ]

  unfoldable pub fetch_api : ConfigurationParameters W → Option (FetchParams → Io W Response)
  fetch_api c = c.fetch_api

  unfoldable pub username : ConfigurationParameters W → Option String
  username c = c.username

  unfoldable pub password : ConfigurationParameters W → Option String
  password c = c.password

  -- The scopes are no argument of any key of the console's.
  unfoldable pub access_token : ConfigurationParameters W → Option (String → Io W Value)
  unfolding key_function
  access_token c = elim (c.access_token) [ none ↦ none | some k ↦ key_function k ]

  unfoldable pub headers : ConfigurationParameters W → Option Props
  headers c = c.headers

  unfoldable pub credentials : ConfigurationParameters W → Value
  credentials c = c.credentials

  abbrev as_key : Option (String → Io W Value) → Option (ApiKey W)
  as_key none = none
  as_key (some f) = some (key_of f)

  -- `configuration.config = c`: the parameters are then the other configuration itself, and what is
  -- read of them are its getters.
  unfoldable pub set_config : Platform → ConfigurationParameters W → ConfigurationParameters W
  unfolding base_path fetch_api middleware query_params_stringify username password api_key
      access_token headers credentials
  set_config d c = record {
    base_path = some (base_path c);
    fetch_api = fetch_api c;
    middleware = some (middleware c);
    query_params_stringify = some (query_params_stringify d c);
    username = username c;
    password = password c;
    api_key = as_key (api_key c);
    access_token = as_key (access_token c);
    headers = headers c;
    credentials = credentials c;
  }
