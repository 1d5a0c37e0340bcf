-- ===== src/Runtime/Fetch/Middlewares.antt =====
-- The order in which a call passes the middleware, and what follows a fetch that resolves.
use open_task.Common.{◌≡◌, refl, sym, ◌∙◌, List, [], ◌∷◌, ◌++◌, ok, throw, Option-cases, inl, inr}
use open_task.Js.Exception.{Response, Result}
use open_task.Runtime.Io.{Io, ◌>>=◌, then_run, then_run_assoc}
use open_task.Runtime.Config.{FetchParams, ResponseContext, Middleware}
use open_task.Runtime.Fetch.{
  BaseApi, with_middleware, run_pre, run_post, fetch_api, or_else, transport,
}

module _ {W : Type 0} where
  -- Two continuations that agree at every value and world agree behind any action.
  then_run_agree :
      {A B : Type 0} (r : Result A × W) {f g : A → Io W B}
      → ((a : A) (w : W) → f a w ≡ g a w)
      → then_run r f ≡ then_run r g
  then_run_agree (ok a, w) h = h a w
  then_run_agree (throw e, w) h = refl

  run_pre-append :
      (ms ns : List (Middleware W)) (params : FetchParams) (w : W)
      → run_pre (ms ++ ns) params w ≡ (run_pre ms params >>= run_pre ns) w
  unfolding run_pre
  run_pre-append [] ns params w = refl
  run_pre-append (m ∷ ms) ns params w = elim (Option-cases (m.pre)) [
    | inl e ↦ rw e (run_pre-append ms ns params w)
    | inr (pre, e) ↦ rw e (
        then_run_agree (pre params w)
          (λ changed w'. run_pre-append ms ns (or_else changed params) w')
        ∙ sym (then_run_assoc (pre params w) _ (run_pre ns)))
  ]

  run_post-append :
      (ms ns : List (Middleware W)) (params : FetchParams) (response : Response) (w : W)
      → run_post (ms ++ ns) params response w
        ≡ (run_post ms params response >>= run_post ns params) w
  unfolding run_post
  run_post-append [] ns params response w = refl
  run_post-append (m ∷ ms) ns params response w = elim (Option-cases (m.post)) [
    | inl e ↦ rw e (run_post-append ms ns params response w)
    | inr (post, e) ↦
        let context : ResponseContext = record {
          url = params.url;
          init = params.init;
          response = response;
        } in
        rw e (
          then_run_agree (post context w)
            (λ answer w'. run_post-append ms ns params (or_else answer response) w')
          ∙ sym (then_run_assoc (post context w) _ (run_post ns params)))
  ]

  -- The middleware that withMiddleware adds to a client runs behind the client's own: its pre
  -- handlers on the request that theirs leave, and its post handlers on the response that theirs
  -- leave.
  pub with_middleware_order :
      (api : BaseApi W) (ns : List (Middleware W)) (params : FetchParams) (response : Response)
      (w : W)
      → (run_pre (with_middleware api ns).middlewares params w
          ≡ (run_pre api.middlewares params >>= run_pre ns) w)
        × (run_post (with_middleware api ns).middlewares params response w
            ≡ (run_post api.middlewares params response >>= run_post ns params) w)
  unfolding with_middleware
  with_middleware_order api ns params response w = (
    run_pre-append api.middlewares ns params w,
    run_post-append api.middlewares ns params response w,
  )

  module _ (fetch : FetchParams → Io W Response) (api : BaseApi W) where
    -- A fetch that resolves is followed by the handlers of responses alone.
    pub fetch_api_resolved :
        (params sent : FetchParams) (response : Response) (w w₁ w₂ : W)
        → run_pre api.middlewares params w ≡ (ok sent, w₁)
        → transport fetch api sent w₁ ≡ (ok response, w₂)
        → fetch_api fetch api params w ≡ run_post api.middlewares sent response w₂
    unfolding fetch_api
    fetch_api_resolved params sent response w w₁ w₂ changed h = rw (changed, h)
