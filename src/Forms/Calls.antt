-- ===== src/Forms/Calls.antt =====
-- What a call of a page's form gives, by the answer of the network.
use open_task.Common.{
  String, ◌<>◌, ◌≡◌, false, Option, some, ok, throw, eqb, if◌then◌else◌, ◌∙◌, Outcome,
}
use open_task.Js.Value.{Value, undefined, string, object, Props, get_prop, get_prop-set_prop}
use open_task.Js.Text.{Platform}
use open_task.Js.Stringify.{stringify}
use open_task.Js.Json.{wire_props}
use open_task.Js.Exception.{Exception, Response, thrown, fetch_error, is_error}
use open_task.Models.Codec.{Codec, Nullable, given}
use open_task.Runtime.Io.{Io}
use open_task.Runtime.Config.{FetchParams, base_path}
use open_task.Runtime.Fetch.{new_api, no_alternative_message}
use open_task.Apis.{ApiResponse, value_of}
use open_task.Apis.Bodies.{Sends}
use open_task.AppConfig.{config, stored_token, authorized}
use open_task.AppConfig.Answers.{value_of_answered, value_of_refused, value_of_failed}
use open_task.Forms.{Page, transport, read_item, console}

-- A request whose body is the JSON of an object from which a server's decoder reads the model.
pub record Asks {A : Type 0} (d : Platform) (url method : String) (codec : Codec A) (m : A)
    (p : FetchParams) : Type 0 where
  pub goes_to : p.url ≡ url
  pub by_method : get_prop p.init "method" ≡ string method
  pub sent : Props
  pub holds : get_prop p.init "body" ≡ stringify d (object sent)
  pub reads : codec.from_json (object (wire_props d sent)) ≡ ok (given m)

-- The network, in the state `n`, answers such a request by `r`, and is then in the state `n'`.
abbrev pub Answers :
    {N A : Type 0}
    → Platform
    → (FetchParams → Io N Response)
    → String
    → String
    → Codec A
    → A
    → N
    → Outcome Exception Response
    → N
    → Type 0
Answers d fetch url method codec m n r n' =
    (p : FetchParams) → Asks d url method codec m p → fetch p n ≡ (r, n')

module _ {N : Type 0} (get_item : N → String → Option String) (d : Platform) (api_url : String)
    {A B : Type 0} {path method : String} {request_codec : Codec A} {response_codec : Codec B}
    {m : A} {call : (FetchParams → Io (Page N) Response) → Io (Page N) (ApiResponse (Nullable B))}
    (s : Sends d (console get_item api_url) path method request_codec response_codec m call) where
  -- The request, as it leaves the middleware of the console.
  abbrev asked : Page N → FetchParams
  asked w = authorized (read_item get_item) (stored_token (read_item get_item) w) s.params

  asked-Asks : (w : Page N) → Asks d (api_url <> (path <> "")) method request_codec m (asked w)
  unfolding authorized console config new_api base_path
  asked-Asks w = record {
    goes_to = s.asks.goes_to;
    by_method = get_prop-set_prop _ _ _ _ ∙ s.asks.by_method;
    sent = s.sent;
    holds = get_prop-set_prop _ _ _ _ ∙ s.asks.holds;
    reads = s.arrives;
  }

  module _ (fetch : FetchParams → Io N Response) (w : Page N) (n : N) where
    -- The network answers the request of the call.
    abbrev AnswersCall : Outcome Exception Response → Type 0
    AnswersCall r = Answers d fetch (api_url <> (path <> "")) method request_codec m w.browser r n

    transported :
        (r : Outcome Exception Response)
        → AnswersCall r
        → transport fetch (asked w) w ≡ (r, record w { browser = n })
    transported r h = rw (h (asked w) (asked-Asks w))

    -- By status 200 and some JSON: the call gives what the decoder makes of that.
    pub call_answered :
        (response : Response) (json : Value)
        → AnswersCall (ok response)
        → response.status ≡ 200
        → response.json ≡ some json
        → value_of (call (transport fetch)) w
          ≡ (response_codec.from_json json, record w { browser = n })
    unfolding console
    call_answered response json h fine body =
        value_of_answered (read_item get_item) api_url (transport fetch) response_codec call
          s.params s.calls response json w (record w { browser = n }) (transported (ok response) h)
          fine body

    -- By another status: the call rejects with undefined.
    pub call_refused :
        (response : Response)
        → AnswersCall (ok response)
        → eqb response.status 200 ≡ false
        → value_of (call (transport fetch)) w ≡ (throw (thrown undefined), record w { browser = n })
    unfolding console
    call_refused response h other =
        value_of_refused (read_item get_item) api_url (transport fetch) response_codec call s.params
          s.calls response w (record w { browser = n }) (transported (ok response) h) other

    -- By an exception.
    pub call_failed :
        (e : Exception)
        → AnswersCall (throw e)
        → value_of (call (transport fetch)) w ≡ (
          throw (if is_error e then fetch_error e no_alternative_message else e),
          record w { browser = n },
        )
    unfolding console
    call_failed e h =
        value_of_failed (read_item get_item) api_url (transport fetch) response_codec call s.params
          s.calls e w (record w { browser = n }) (transported (throw e) h)
