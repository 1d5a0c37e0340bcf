-- ===== src/Runtime/Fetch/Recovery.antt =====
-- What the middleware makes of a fetch that rejects.
use open_task.Common.{◌≡◌, refl, Option, none, some, List, [], ◌∷◌, ok, throw, All}
use open_task.Js.Exception.{Exception, Response}
use open_task.Runtime.Io.{Io}
use open_task.Runtime.Config.{FetchParams, ErrorContext, Middleware}
use open_task.Runtime.Fetch.{
  BaseApi, run_pre, run_on_error, run_post, fetch_api, transport, or_keep,
}

-- A response, if there is one, of which `P` holds.
abbrev pub IsGiven : (Response → Type 0) → Option Response → Type 0
IsGiven P none = Unit
IsGiven P (some r) = P r

-- A middleware without a handler of errors, or with one that always resolves: with no response, or
-- with one of which `P` holds.
pub data Settles {W : Type 0} (P : Response → Type 0) (m : Middleware W) : Type 0 where
  silent : m.on_error ≡ none → Settles P m
  resolves :
      (handler : ErrorContext → Io W (Option Response))
      → m.on_error ≡ some handler
      → ((context : ErrorContext) (w : W)
          → (answer : Option Response) × (w' : W) × (handler context w ≡ (ok answer, w'))
            × IsGiven P answer)
      → Settles P m

-- One whose handler of errors always resolves with such a response.
pub record Responds {W : Type 0} (P : Response → Type 0) (m : Middleware W) : Type 0 where
  pub handler : ErrorContext → Io W (Option Response)
  pub handles : m.on_error ≡ some handler
  pub responds :
      (context : ErrorContext) (w : W)
      → (response : Response) × (w' : W) × (handler context w ≡ (ok (some response), w'))
        × P response

-- All settle, and one responds.
pub data Recover {W : Type 0} (P : Response → Type 0) : List (Middleware W) → Type 0 where
  here :
      {m : Middleware W} {ms : List (Middleware W)}
      → Responds P m
      → All (Settles P) ms
      → Recover P (m ∷ ms)
  later :
      {m : Middleware W} {ms : List (Middleware W)}
      → Settles P m
      → Recover P ms
      → Recover P (m ∷ ms)

-- The response of a handler, or the one before.
or_keep-IsGiven :
    {P : Response → Type 0} (answer : Option Response) (response : Response)
    → IsGiven P answer
    → P response
    → (r : Response) × (or_keep answer (some response) ≡ some r) × P r
or_keep-IsGiven none response h p = (response, refl, p)
or_keep-IsGiven (some r) response h p = (r, refl, h)

abbrev context_of : FetchParams → Exception → Option Response → ErrorContext
context_of params e before = record {
  url = params.url;
  init = params.init;
  error = e;
  response = before;
}

module _ {W : Type 0} (P : Response → Type 0) (params : FetchParams) (e : Exception) where
  -- What the handlers leave.
  Leaves : List (Middleware W) → Option Response → W → Type 0
  Leaves ms before w =
      (response : Response) × (w' : W) × (run_on_error ms params e before w
        ≡ (ok (some response), w'))
      × P response

  -- A response that is there is kept, or replaced by a later one.
  kept :
      (ms : List (Middleware W)) (response : Response) (w : W)
      → P response
      → All (Settles P) ms
      → Leaves ms (some response) w
  unfolding Leaves run_on_error
  kept [] response w p h = (response, w, refl, p)
  kept (m ∷ ms) response w p (silent quiet, h) = rw quiet (kept ms response w p h)
  kept (m ∷ ms) response w p (resolves handler handles settles, h) =
      let (answer, w', ran, given) = settles (context_of params e (some response)) w in
      let (r, is_r, q) = or_keep-IsGiven answer response given p in
      rw (handles, ran, is_r) (kept ms r w' q h)

  recovers :
      (ms : List (Middleware W)) (before : Option Response) (w : W)
      → Recover P ms
      → Leaves ms before w
  unfolding Leaves run_on_error
  recovers [] before w h = elim h [ ]
  recovers (m ∷ ms) before w (here r h) =
      let (response, w', ran, p) = r.responds (context_of params e before) w in
      rw (r.handles, ran) (kept ms response w' p h)
  recovers (m ∷ ms) before w (later (silent quiet) h) = rw quiet (recovers ms before w h)
  recovers (m ∷ ms) before w (later (resolves handler handles settles) h) =
      let (answer, w', ran, given) = settles (context_of params e before) w in
      rw (handles, ran) (recovers ms (or_keep answer before) w' h)

module _ {W : Type 0} (P : Response → Type 0) (fetch : FetchParams → Io W Response)
    (api : BaseApi W) where
  -- When every handler of errors of a client resolves, one of them always with a response, the pre
  -- handlers resolve, and the fetch of what they leave rejects, fetchApi goes on with the post
  -- handlers on a response that a handler of errors gave, for it has every property that all their
  -- responses have.
  pub fetch_api_recovered :
      (params sent : FetchParams) (e : Exception) (w w₁ w₂ : W)
      → Recover P api.middlewares
      → run_pre api.middlewares params w ≡ (ok sent, w₁)
      → transport fetch api sent w₁ ≡ (throw e, w₂)
      → (response : Response) × (w₃ : W) × P response
        × (fetch_api fetch api params w ≡ run_post api.middlewares sent response w₃)
  unfolding fetch_api Leaves
  fetch_api_recovered params sent e w w₁ w₂ h changed failed =
      let (response, w₃, left, p) = recovers P sent e api.middlewares none w₂ h in
      (response, w₃, p, rw (changed, failed, left) refl)
