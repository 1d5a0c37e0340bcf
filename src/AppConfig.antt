-- ===== src/AppConfig.antt =====
-- ui/vite-opentask/src/apis/config.ts: the console's configuration of the client. The world holds the
-- browser's local storage, which `get_item` reads.
pub mod Token
pub mod Calls
pub mod Answers
use Prim.Native.Char.{Char, code}
use Prim.Native.String
use open_task.Common.{ℕ, suc, String, Option, none, some, List, [], ◌∷◌, if◌then◌else◌, eqb}
use open_task.Js.Value.{
  Value, undefined, string, array, object, Elems, nil, cons, Props, empty, prop, get_prop, set_prop,
  assign,
}
use open_task.Js.Text.{decimal}
use open_task.Js.Exception.{Response, thrown}
use open_task.Runtime.Io.{Io, pure, raise}
use open_task.Runtime.Config.{
  FetchParams, ResponseContext, Middleware, ApiKey, key_of, ConfigurationParameters,
}

-- `.replace('"', "")`: the first quotation mark goes.
unfoldable pub remove_quote : String → String
remove_quote String.[] = ""
remove_quote (String.◌∷◌ c s) = if eqb (code c) 34 then s else String.◌∷◌ c (remove_quote s)

-- The items of an array under their indices.
indexed : ℕ → Elems → Props
indexed i nil = empty
indexed i (cons v vs) = prop (decimal i) v (indexed (suc i) vs)

-- `{...headers}`: the properties of an object's own, or the items of an array. A text is no
-- `HeadersInit`, and the other values have no properties of their own.
abbrev pub spread : Value → Props
unfolding indexed
spread (object ps) = ps
spread (array vs) = indexed 0 vs
spread _ = empty

module _ {W : Type 0} (get_item : W → String → Option String) where
  -- `localStorage.getItem("token")?.replace('"', "").replace('"', "") ?? ""`
  unfoldable pub stored_token : W → String
  stored_token w = elim (get_item w "token") [
    | none ↦ ""
    | some text ↦ remove_quote (remove_quote text)
  ]

  -- The header over the others, in the context's own `init`.
  unfoldable pub authorized : String → FetchParams → FetchParams
  authorized token context =
      let headers =
        assign (assign empty (spread (get_prop context.init "headers")))
          (prop "Authorization" (string token) empty) in
      record context { init = set_prop context.init "headers" (object headers) }

  unfoldable pub pre : FetchParams → Io W (Option FetchParams)
  unfolding stored_token authorized
  pre context w = pure (some (authorized (stored_token w) context)) w

  -- `resolve()` comes first for status 200, and then the `reject()` has no effect.
  unfoldable pub post : ResponseContext → Io W (Option Response)
  post context = if eqb context.response.status 200 then pure none else raise (thrown undefined)

  -- `config`; `api_url` is `import.meta.env.VITE_API_URL || location.origin`.
  unfoldable pub config : String → ConfigurationParameters W
  unfolding pre post
  config api_url = record {
    base_path = some api_url;
    fetch_api = none;
    middleware = some (record { pre = some pre; post = some post; on_error = none } ∷ []);
    query_params_stringify = none;
    username = none;
    password = none;
    api_key = none;
    access_token = some (key_of (λ name w. pure (string (stored_token w)) w));
    headers = none;
    credentials = string "include";
  }
