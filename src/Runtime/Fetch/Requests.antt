-- ===== src/Runtime/Fetch/Requests.antt =====
-- The URL of the request that a call becomes.
use open_task.Common.{String, ◌<>◌, ◌≡◌, refl, none, some, ok}
use open_task.Js.Value.{Value, Props, empty, prop}
use open_task.Js.Text.{Platform}
use open_task.Js.Uri.{codes}
use open_task.Runtime.Query.Parse.{parse_query, IsFlat, entries, parse_query-querystring}
use open_task.Runtime.Config.{FetchParams, base_path, query_params_stringify}
use open_task.Runtime.Fetch.{RequestOpts, no_overrides, BaseApi, create_fetch_params, final_init}

module _ {W : Type 0} (d : Platform) where
  -- With the library's own stringifier a call that has parameters goes to the base path, the path
  -- and a query behind a `?`, from which a server reads the parameters back.
  pub create_fetch_params-url :
      (api : BaseApi W) (context : RequestOpts) (k : String) (v : Value) (ps : Props) (w : W)
      → api.configuration.query_params_stringify ≡ none
      → context.query ≡ some (prop k v ps)
      → IsFlat (prop k v ps)
      → (params : FetchParams) × (q : String) × (create_fetch_params d api context no_overrides w
          ≡ (ok params, w))
        × (params.url ≡ base_path api.configuration <> (context.path <> ("?" <> q)))
        × (parse_query (codes q) ≡ entries d (prop k v ps))
  unfolding create_fetch_params query_params_stringify
  create_fetch_params-url api context k v ps w own asked flat =
      let (q, made, read) = parse_query-querystring d k v ps flat in
      (
        record {
          url = base_path api.configuration <> (context.path <> ("?" <> q));
          init = final_init d api context empty;
        },
        q,
        rw (asked, own, made) refl,
        refl,
        read,
      )
