-- ===== src/Runtime/Config/Getters.antt =====
-- What a configuration reads after it was set to another.
use open_task.Common.{◌≡◌, refl, Option, none, some, String}
use open_task.Js.Value.{Value}
use open_task.Js.Text.{Platform}
use open_task.Runtime.Io.{Io}
use open_task.Runtime.Config.{
  ConfigurationParameters, as_key, key_function, base_path, middleware, query_params_stringify,
  api_key, access_token, fetch_api, headers, credentials, set_config,
}

key_of_as_key :
    {W : Type 0} (k : Option (String → Io W Value))
    → elim (as_key k) [ none ↦ none | some f ↦ key_function f ] ≡ k
unfolding key_function
key_of_as_key none = refl
key_of_as_key (some f) = refl

-- A configuration that is set to another one answers like that one: the same base path, middleware,
-- texts of queries, keys, tokens, headers, credentials and fetch function.
pub set_config-getters :
    {W : Type 0} (d : Platform) (c : ConfigurationParameters W)
    → (base_path (set_config d c) ≡ base_path c)
      × (middleware (set_config d c) ≡ middleware c)
      × (query_params_stringify d (set_config d c) ≡ query_params_stringify d c)
      × (api_key (set_config d c) ≡ api_key c)
      × (access_token (set_config d c) ≡ access_token c)
      × (headers (set_config d c) ≡ headers c)
      × (credentials (set_config d c) ≡ credentials c)
      × (fetch_api (set_config d c) ≡ fetch_api c)
unfolding set_config
set_config-getters d c =
    (refl, refl, refl, key_of_as_key (api_key c), key_of_as_key (access_token c), refl, refl, refl)
