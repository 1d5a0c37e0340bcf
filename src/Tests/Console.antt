-- ===== src/Tests/Console.antt =====
-- The console's configuration, the middleware and the responses.
use open_task.Common.{
  String, ◌==◌, ◌≡◌, refl, none, some, false, ok, throw, [], ◌∷◌, if◌then◌else◌, eqb,
}
use open_task.Js.Value.{
  undefined, string, object, empty, prop, get_prop, get, IsDefined, assign, set_prop,
  delete_undefined,
}
use open_task.Js.Stringify.{stringify}
use open_task.Js.Exception.{Response, network_error, fetch_error, thrown}
use open_task.Runtime.Io.{Io, ◌>>=◌}
use open_task.Runtime.Config.{FetchParams, Middleware, base_path}
use open_task.Runtime.Fetch.{
  no_overrides, new_api, BaseApi, RequestOpts, request, fetch_api, with_middleware, run_pre,
  run_post, create_fetch_params, no_alternative_message, merged_headers, final_init, init_params,
  encoded_body,
}
use open_task.Runtime.Fetch.Headers.{get_prop-merged_headers}
use open_task.Runtime.Fetch.Middlewares.{with_middleware_order}
use open_task.Runtime.Fetch.Recovery.{Recover, here, later, Settles, resolves, fetch_api_recovered}
use open_task.AppConfig.{config, authorized, stored_token}
use open_task.AppConfig.Token.{stored_token-stringify}
use open_task.AppConfig.Calls.{
  authorized-get_prop, request-config_resolved, request-config_rejected,
}
use open_task.Tests.Samples.{platform, console, api_url, read_item, answer, Storage}

-- A call of a path, and the request that it becomes.
abbrev call : RequestOpts
call = record {
  path = "/api/TaskInfo/ListTaskInfos";
  method = "GET";
  headers = empty;
  query = none;
  body = undefined;
}

abbrev made : FetchParams
made = record {
  url = "http://localhost:8080/api/TaskInfo/ListTaskInfos";
  init = prop "method" (string "GET") (
      prop "headers" (object empty)
        (prop "body" undefined (prop "credentials" (string "include") empty)));
}

abbrev created : Response
created = record { status = 201; json = none }

abbrev creating : FetchParams → Io Storage Response
creating p w = (ok created, w)

abbrev failing : FetchParams → Io Storage Response
failing p w = (throw network_error, w)

request-config_resolved_example :
    request platform creating (new_api (config read_item api_url)) call no_overrides (some "\"t\"")
    ≡ ((if eqb 201 200 then ok created else throw (thrown undefined)), some "\"t\"")
unfolding create_fetch_params new_api config merged_headers base_path final_init assign set_prop
    init_params delete_undefined encoded_body
request-config_resolved_example =
    request-config_resolved read_item platform api_url creating call no_overrides made created
      (some "\"t\"") (some "\"t\"") (some "\"t\"") refl refl

request-config_rejected_example :
    request platform failing (new_api (config read_item api_url)) call no_overrides none
    ≡ (throw (fetch_error network_error no_alternative_message), none)
unfolding create_fetch_params new_api config merged_headers base_path final_init assign set_prop
    init_params delete_undefined encoded_body
request-config_rejected_example =
    request-config_rejected read_item platform api_url failing call no_overrides made network_error
      none none none refl refl

authorized-get_prop_example :
    (get (get_prop (authorized read_item "t" made).init "headers") "Authorization" ≡ string "t")
    × ((authorized read_item "t" made).url ≡ made.url)
    × ((j : String)
        → ("headers" == j) ≡ false
        → get_prop (authorized read_item "t" made).init j ≡ get_prop made.init j)
authorized-get_prop_example = authorized-get_prop read_item "t" made empty "Authorization" refl refl

stored_token-stringify_example : stored_token read_item (some "\"abc.def-1\"") ≡ "abc.def-1"
unfolding stringify
stored_token-stringify_example =
    stored_token-stringify platform read_item "abc.def-1" "\"abc.def-1\"" (some "\"abc.def-1\"")
      refl refl refl

-- A client without middleware.
abbrev bare : BaseApi Storage
bare = record {
  configuration = record {
    base_path = none;
    fetch_api = none;
    middleware = none;
    query_params_stringify = none;
    username = none;
    password = none;
    api_key = none;
    access_token = none;
    headers = some (prop "X-Client" (string "console") (prop "Accept" (string "*/*") empty));
    credentials = undefined;
  };
  middlewares = [];
}

abbrev bare_call : FetchParams
bare_call = record {
  url = "http://localhost/api/TaskInfo/ListTaskInfos";
  init = prop "method" (string "GET") (
      prop "headers"
        (object (prop "X-Client" (string "console") (prop "Accept" (string "*/*") empty)))
        (prop "body" undefined (prop "credentials" undefined empty)));
}

get_prop-merged_headers_example :
    (get_prop
        (merged_headers bare.configuration (prop "Accept" (string "text/html") empty))
        "Accept"
      ≡ string "text/html")
    × IsDefined (merged_headers bare.configuration (prop "Accept" (string "text/html") empty))
get_prop-merged_headers_example =
    get_prop-merged_headers bare.configuration (prop "Accept" (string "text/html") empty) "Accept"
      refl refl

-- A middleware that answers for a failed fetch.
abbrev rescuer : Middleware Storage
rescuer = record { pre = none; post = none; on_error = some (λ context w. (ok (some answer), w)) }

with_middleware_order_example :
    (run_pre (with_middleware console (rescuer ∷ [])).middlewares made (some "t")
      ≡ (run_pre console.middlewares made >>= run_pre (rescuer ∷ [])) (some "t"))
    × (run_post (with_middleware console (rescuer ∷ [])).middlewares made answer (some "t")
        ≡ (run_post console.middlewares made answer >>= run_post (rescuer ∷ []) made) (some "t"))
with_middleware_order_example = with_middleware_order console (rescuer ∷ []) made answer (some "t")

-- One that only listens.
abbrev listener : Middleware Storage
listener = record { pre = none; post = none; on_error = some (λ context w. (ok none, w)) }

abbrev rescued : BaseApi Storage
rescued = record bare { middlewares = listener ∷ rescuer ∷ listener ∷ [] }

abbrev IsAnswer : Response → Type 0
IsAnswer r = r.status ≡ answer.status

listener-Settles : Settles IsAnswer listener
listener-Settles = resolves (λ context w. (ok none, w)) refl (λ context w. (none, w, refl, tt))

rescued-Recover : Recover IsAnswer rescued.middlewares
rescued-Recover = later listener-Settles (
    here
      (record {
        handler = λ context w. (ok (some answer), w);
        handles = refl;
        responds = λ context w. (answer, w, refl, refl);
      })
      (listener-Settles, tt))

fetch_api_recovered_example :
    (response : Response) × (w : Storage) × (response.status ≡ answer.status)
    × (fetch_api failing rescued made none ≡ run_post rescued.middlewares made response w)
unfolding run_pre
fetch_api_recovered_example =
    fetch_api_recovered IsAnswer failing rescued made made network_error none none none
      rescued-Recover refl refl
