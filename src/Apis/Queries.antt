-- ===== src/Apis/Queries.antt =====
-- What the methods that send a query put on the network.
use open_task.Common.{
  String, ◌<>◌, ◌≡◌, refl, true, none, some, List, [], ◌∷◌, if◌then◌else◌, inl, inr, arith,
  Bool-cases,
}
use open_task.Js.Value.{
  Value, undefined, string, Props, empty, prop, get_prop, set_prop, assign, is_nullish,
}
use open_task.Js.Text.{Platform}
use open_task.Js.Uri.{codes}
use open_task.Js.Exception.{Response}
use open_task.Models.Codec.{Codec, Nullable, is_string, is_number, IsOptional}
use open_task.Runtime.Io.{Io, pure, ◌>>=◌}
use open_task.Runtime.Query.Parse.{
  parse_query, IsFlat, is_primitive, entries, parse_query-querystring,
}
use open_task.Runtime.Config.{FetchParams, base_path, api_key, query_params_stringify}
use open_task.Runtime.Fetch.{
  RequestOpts, no_overrides, BaseApi, fetch_api, accepted, create_fetch_params, final_init,
  init_params, request,
}
use open_task.Apis.{ApiResponse, call_with_query}
use open_task.Apis.Bodies.{authorize_lem}

-- The parameters of a call that are neither undefined nor null, in order.
abbrev pub asked : List (String × Value) → Props
asked [] = empty
asked ((k, v) ∷ rest) = if is_nullish v then asked rest else prop k v (asked rest)

-- What a server reads behind a path: nothing, or a `?` and the parameters.
pub data ReadsAs (d : Platform) : String → Props → Type 0 where
  no_query : ReadsAs d "" empty
  query : (q : String) (ps : Props) → parse_query (codes q) ≡ entries d ps → ReadsAs d ("?" <> q) ps

module _ {W : Type 0} (d : Platform) (api : BaseApi W) where
  -- What a call becomes: the fetch of a request whose URL says its parameters.
  pub record Asks {B : Type 0} (path : String) (response_codec : Codec B) (parameters : Props)
      (call : (FetchParams → Io W Response) → Io W (ApiResponse (Nullable B))) : Type 0 where
    pub params : FetchParams
    pub suffix : String
    pub goes_to : params.url ≡ base_path api.configuration <> (path <> suffix)
    pub says : ReadsAs d suffix parameters
    pub by_method : get_prop params.init "method" ≡ string "GET"
    pub with_credentials : get_prop params.init "credentials" ≡ api.configuration.credentials
    pub calls :
        (fetch : FetchParams → Io W Response) (w : W)
        → call fetch w
          ≡ (fetch_api fetch api params >>= accepted >>= λ response.
                pure (record { raw = response; transformer = response_codec.from_json }))
              w

  pub call_with_query-Asks :
      {B : Type 0} (path : String) (response_codec : Codec B) (parameters : Props)
      → api_key api.configuration ≡ none
      → api.configuration.query_params_stringify ≡ none
      → IsFlat parameters
      → Asks path response_codec parameters
          (λ fetch. call_with_query d fetch api path response_codec parameters no_overrides)
  unfolding call_with_query request create_fetch_params final_init init_params assign set_prop
      query_params_stringify
  call_with_query-Asks path response_codec empty no_key own flat =
      let context : RequestOpts = record {
        path = path;
        method = "GET";
        headers = empty;
        query = some empty;
        body = undefined;
      } in
      record {
        params = record {
          url = base_path api.configuration <> (path <> "");
          init = final_init d api context empty;
        };
        suffix = "";
        goes_to = refl;
        says = no_query;
        by_method = refl;
        with_credentials = refl;
        calls = λ fetch w. rw (authorize_lem d api fetch empty no_key);
      }
  call_with_query-Asks path response_codec (prop k v ps) no_key own flat =
      let context : RequestOpts = record {
        path = path;
        method = "GET";
        headers = empty;
        query = some (prop k v ps);
        body = undefined;
      } in
      let (q, made, read) = parse_query-querystring d k v ps flat in
      record {
        params = record {
          url = base_path api.configuration <> (path <> ("?" <> q));
          init = final_init d api context empty;
        };
        suffix = "?" <> q;
        goes_to = refl;
        says = query q (prop k v ps) read;
        by_method = refl;
        with_credentials = refl;
        calls = λ fetch w. rw (authorize_lem d api fetch empty no_key, own, made);
      }

-- A parameter that is a text or a number, or absent.
pub asked-IsFlat :
    (rest : List (String × Value)) (k : String) (v : Value)
    → IsFlat (asked rest)
    → (is_primitive v ≡ true)
    → IsFlat (asked ((k, v) ∷ rest))
asked-IsFlat rest k v flat h = elim (Bool-cases (is_nullish v)) [
  | inl e ↦ rw e flat
  | inr e ↦ rw e (h, flat)
]

pub string_primitive : (v : Value) → IsOptional is_string v → is_primitive v ≡ true
string_primitive v h = ground arith

pub number_primitive : (v : Value) → IsOptional is_number v → is_primitive v ≡ true
number_primitive v h = ground arith
