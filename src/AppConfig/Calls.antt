-- ===== src/AppConfig/Calls.antt =====
-- What becomes of a call of the console.
use open_task.Common.{
  String, ◌==◌, ◌≡◌, refl, true, false, Option, ok, throw, if◌then◌else◌, eqb, leb, ltb, ◌&&◌,
  arith, Bool-cases, inl, inr,
}
use open_task.Js.Value.{
  undefined, string, object, Props, empty, prop, get_prop, get, set_prop, get_prop-set_prop, assign,
  get_prop-assign, has_distinct_keys, get_prop_of_has_key,
}
use open_task.Js.Text.{Platform}
use open_task.Js.Exception.{Exception, thrown, fetch_error, is_error, Response}
use open_task.Runtime.Io.{Io, ◌>>=◌}
use open_task.Runtime.Config.{FetchParams, middleware}
use open_task.Runtime.Fetch.{
  RequestOpts, InitOverrides, new_api, create_fetch_params, fetch_api, accepted, request, run_pre,
  run_post, run_on_error, no_alternative_message, recovered,
}
use open_task.AppConfig.{config, pre, post, spread, authorized, stored_token}

module _ {W : Type 0} (get_item : W → String → Option String) where
  -- For a request whose headers are an object with distinct names, the console's middleware makes
  -- the token its header Authorization, keeps its other headers and its URL, and keeps every part of
  -- its init but the headers.
  pub authorized-get_prop :
      (token : String) (p : FetchParams) (hs : Props) (k : String)
      → get_prop p.init "headers" ≡ object hs
      → has_distinct_keys hs ≡ true
      → (get (get_prop (authorized get_item token p).init "headers") k
          ≡ (if "Authorization" == k then string token else get_prop hs k))
        × ((authorized get_item token p).url ≡ p.url)
        × ((j : String)
            → ("headers" == j) ≡ false
            → get_prop (authorized get_item token p).init j ≡ get_prop p.init j)
  unfolding authorized assign set_prop spread
  authorized-get_prop token p hs k held distinct =
      let added : Props = prop "Authorization" (string token) empty in
      (
        rw
            (
              get_prop-set_prop p.init "headers" "headers"
                  (object (assign (assign empty (spread (get_prop p.init "headers"))) added)),
              held,
              get_prop-assign (assign empty hs) added k refl,
              get_prop-assign empty hs k distinct,
            )
            (ground (arith, get_prop_of_has_key hs k)),
        refl,
        λ j other. rw (
          get_prop-set_prop p.init "headers" j
              (object (assign (assign empty (spread (get_prop p.init "headers"))) added)),
          other,
        ),
      )

  module _ (api_url : String) (fetch : FetchParams → Io W Response) where
    pub fetch_api-config_resolved :
        (p : FetchParams) (response : Response) (w w₂ : W)
        → fetch (authorized get_item (stored_token get_item w) p) w ≡ (ok response, w₂)
        → (fetch_api fetch (new_api (config get_item api_url)) p >>= accepted) w
          ≡ ((if eqb response.status 200 then ok response else throw (thrown undefined)), w₂)
    unfolding fetch_api new_api run_pre run_post config pre post accepted middleware
    fetch_api-config_resolved p response w w₂ fetched =
        elim (Bool-cases (eqb response.status 200)) [
          | inl e ↦
              let fine : (leb 200 response.status && ltb response.status 300) ≡ true =
                ground arith in
              rw (fetched, e, fine)
          | inr e ↦ rw (fetched, e)
        ]

    pub fetch_api-config_rejected :
        (p : FetchParams) (e : Exception) (w w₂ : W)
        → fetch (authorized get_item (stored_token get_item w) p) w ≡ (throw e, w₂)
        → (fetch_api fetch (new_api (config get_item api_url)) p >>= accepted) w
          ≡ (throw (if is_error e then fetch_error e no_alternative_message else e), w₂)
    unfolding fetch_api new_api run_pre run_on_error config pre recovered middleware
    fetch_api-config_rejected p e w w₂ failed = elim (Bool-cases (is_error e)) [
      | inl error ↦ rw (failed, error)
      | inr other ↦ rw (failed, other)
    ]

  module _ (d : Platform) (api_url : String) (fetch : FetchParams → Io W Response) where
    -- Under the console's configuration, when the parameters of a request are made and the fetch of
    -- the authorized request resolves with a response, the call gives that response if its status is
    -- 200, and otherwise, also for 201 to 299, rejects with undefined and never with a
    -- ResponseError; the world is the one that the fetch leaves.
    pub request-config_resolved :
        (context : RequestOpts) (init : InitOverrides W) (p : FetchParams) (response : Response)
        (w w₁ w₂ : W)
        → create_fetch_params d (new_api (config get_item api_url)) context init w ≡ (ok p, w₁)
        → fetch (authorized get_item (stored_token get_item w₁) p) w₁ ≡ (ok response, w₂)
        → request d fetch (new_api (config get_item api_url)) context init w
          ≡ ((if eqb response.status 200 then ok response else throw (thrown undefined)), w₂)
    unfolding request
    request-config_resolved context init p response w w₁ w₂ made fetched =
        rw made (fetch_api-config_resolved api_url fetch p response w₁ w₂ fetched)

    -- Under the console's configuration, when the parameters of a request are made and the fetch of
    -- the authorized request rejects, the call rejects with a FetchError around the reason if that
    -- is an Error, and with the reason itself if not; the world is the one that the fetch leaves.
    pub request-config_rejected :
        (context : RequestOpts) (init : InitOverrides W) (p : FetchParams) (e : Exception)
        (w w₁ w₂ : W)
        → create_fetch_params d (new_api (config get_item api_url)) context init w ≡ (ok p, w₁)
        → fetch (authorized get_item (stored_token get_item w₁) p) w₁ ≡ (throw e, w₂)
        → request d fetch (new_api (config get_item api_url)) context init w
          ≡ (throw (if is_error e then fetch_error e no_alternative_message else e), w₂)
    unfolding request
    request-config_rejected context init p e w w₁ w₂ made failed =
        rw made (fetch_api-config_rejected api_url fetch p e w₁ w₂ failed)
