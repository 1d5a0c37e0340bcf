-- ===== src/Apis/Bodies.antt =====
-- What the methods that send a model put on the network.
use open_task.Common.{String, ◌<>◌, ◌≡◌, refl, true, none, some, ok}
use open_task.Js.Value.{
  string, object, Props, empty, get_prop, get, set_prop, assign, has_distinct_keys,
}
use open_task.Js.Text.{Platform}
use open_task.Js.Stringify.{stringify}
use open_task.Js.Json.{wire_props}
use open_task.Js.Exception.{Response}
use open_task.Models.Codec.{Codec, Nullable, given}
use open_task.Models.Codec.RoundTrip.{Carries}
use open_task.Runtime.Io.{Io, pure, ◌>>=◌}
use open_task.Runtime.Config.{FetchParams, base_path, api_key}
use open_task.Runtime.Fetch.{
  RequestOpts, no_overrides, BaseApi, fetch_api, accepted, create_fetch_params, final_init,
  merged_headers, encoded_body, init_params, request,
}
use open_task.Runtime.Fetch.Headers.{configured, get_prop-merged_headers}
use open_task.Runtime.Mime.{application_json}
use open_task.Apis.{ApiResponse, json_headers, call_with_body, authorize}

module _ {W : Type 0} (d : Platform) (api : BaseApi W) where
  -- A request to a path that holds the JSON text of an object, and says so.
  pub record IsJsonRequest (path method : String) (sent : Props) (p : FetchParams) : Type 0 where
    pub goes_to : p.url ≡ base_path api.configuration <> (path <> "")
    pub by_method : get_prop p.init "method" ≡ string method
    pub with_credentials : get_prop p.init "credentials" ≡ api.configuration.credentials
    pub says_json : get (get_prop p.init "headers") "Content-Type" ≡ string "application/json"
    pub holds : get_prop p.init "body" ≡ stringify d (object sent)

  -- Without a configured key the headers are as given.
  pub authorize_lem :
      (fetch : FetchParams → Io W Response) (headers : Props)
      → api_key api.configuration ≡ none
      → authorize d fetch api headers ≡ pure headers
  unfolding authorize
  authorize_lem fetch headers no_key = rw (authorize, no_key) refl

  -- What a call becomes: the fetch of a request that holds a model's JSON, from which the model's
  -- decoder reads the model back. The response is judged by its status, and its JSON is left to
  -- the response's decoder.
  pub record Sends {A B : Type 0} (path method : String) (request_codec : Codec A)
      (response_codec : Codec B) (m : A)
      (call : (FetchParams → Io W Response) → Io W (ApiResponse (Nullable B))) : Type 0 where
    pub sent : Props
    pub params : FetchParams
    pub asks : IsJsonRequest path method sent params
    pub arrives : request_codec.from_json (object (wire_props d sent)) ≡ ok (given m)
    pub calls :
        (fetch : FetchParams → Io W Response) (w : W)
        → call fetch w
          ≡ (fetch_api fetch api params >>= accepted >>= λ response.
                pure (record { raw = response; transformer = response_codec.from_json }))
              w

  -- A method that sends a model which its encoder carries, with no key configured and no override,
  -- sends it.
  pub call_with_body-Sends :
      {A B : Type 0}
      → (path method : String) (request_codec : Codec A) (response_codec : Codec B) (m : A)
      → api_key api.configuration ≡ none
      → has_distinct_keys (configured api.configuration) ≡ true
      → Carries d request_codec m
      → Sends path method request_codec response_codec m (λ fetch.
        call_with_body d fetch api path method request_codec response_codec (given m) no_overrides)
  unfolding call_with_body request create_fetch_params final_init init_params encoded_body assign
      set_prop
  call_with_body-Sends path method request_codec response_codec m no_key distinct c =
      let context : RequestOpts = record {
        path = path;
        method = method;
        headers = json_headers;
        query = some empty;
        body = object c.sent;
      } in
      let headers = merged_headers api.configuration json_headers in
      let json =
        (get_prop-merged_headers api.configuration json_headers "Content-Type" distinct refl).0 in
      let p : FetchParams = record {
        url = base_path api.configuration <> (path <> "");
        init = final_init d api context empty;
      } in
      record {
        sent = c.sent;
        params = p;
        asks = record {
          goes_to = refl;
          by_method = refl;
          with_credentials = refl;
          says_json = json;
          holds = rw (json, application_json);
        };
        arrives = c.receives;
        calls = λ fetch w. rw (authorize_lem fetch json_headers no_key, c.sends);
      }
