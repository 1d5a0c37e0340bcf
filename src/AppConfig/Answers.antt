-- ===== src/AppConfig/Answers.antt =====
-- What becomes of a call, from the answer of the network to the result.
use open_task.Common.{String, ◌≡◌, false, Option, ok, throw, if◌then◌else◌, eqb, some}
use open_task.Js.Value.{Value, undefined}
use open_task.Js.Exception.{Exception, Response, thrown, fetch_error, is_error}
use open_task.Models.Codec.{Codec, Nullable}
use open_task.Runtime.Io.{Io, ◌>>=◌, pure}
use open_task.Runtime.Config.{FetchParams}
use open_task.Runtime.Fetch.{new_api, fetch_api, accepted, no_alternative_message, value}
use open_task.Apis.{ApiResponse, value_of}
use open_task.AppConfig.{config, authorized, stored_token}
use open_task.AppConfig.Calls.{fetch_api-config_resolved, fetch_api-config_rejected}

module _ {W : Type 0} (get_item : W → String → Option String) (api_url : String)
    (fetch : FetchParams → Io W Response) where
  -- A call that is the fetch of `params`, judged by the status, with the decoder of its response.
  module _ {B : Type 0} (response_codec : Codec B)
      (call : (FetchParams → Io W Response) → Io W (ApiResponse (Nullable B)))
      (params : FetchParams)
      (calls : (fetch : FetchParams → Io W Response) (w : W)
        → call fetch w
          ≡ (fetch_api fetch (new_api (config get_item api_url)) params >>= accepted >>= λ response.
                pure (record { raw = response; transformer = response_codec.from_json }))
              w) where
    -- Answered by status 200 and some JSON, the call gives what the decoder makes of that.
    pub value_of_answered :
        (response : Response) (json : Value) (w w₂ : W)
        → fetch (authorized get_item (stored_token get_item w) params) w ≡ (ok response, w₂)
        → response.status ≡ 200
        → response.json ≡ some json
        → value_of (call fetch) w ≡ (response_codec.from_json json, w₂)
    unfolding value
    value_of_answered response json w w₂ fetched fine body = rw (
      calls fetch w,
      fetch_api-config_resolved get_item api_url fetch params response w w₂ fetched,
      fine,
      body,
    )

    -- Answered by another status, it rejects with undefined.
    pub value_of_refused :
        (response : Response) (w w₂ : W)
        → fetch (authorized get_item (stored_token get_item w) params) w ≡ (ok response, w₂)
        → eqb response.status 200 ≡ false
        → value_of (call fetch) w ≡ (throw (thrown undefined), w₂)
    value_of_refused response w w₂ fetched other = rw (
      calls fetch w,
      fetch_api-config_resolved get_item api_url fetch params response w w₂ fetched,
      other,
    )

    -- Without an answer, it rejects with the network's reason.
    pub value_of_failed :
        (e : Exception) (w w₂ : W)
        → fetch (authorized get_item (stored_token get_item w) params) w ≡ (throw e, w₂)
        → value_of (call fetch) w
          ≡ (throw (if is_error e then fetch_error e no_alternative_message else e), w₂)
    value_of_failed e w w₂ failed =
        rw (calls fetch w, fetch_api-config_rejected get_item api_url fetch params e w w₂ failed)
