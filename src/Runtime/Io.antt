-- ===== src/Runtime/Io.antt =====
-- Asynchronous code over a world `W` (the network, the storage of the browser): an action gives what
-- its promise resolves to or rejects with, and the world that it leaves.
use open_task.Common.{ok, throw, ◌≡◌, refl}
use open_task.Js.Exception.{Exception, Result}

abbrev pub Io : Type 0 → Type 0 → Type 0
Io W A = W → Result A × W

module _ {W : Type 0} where
  abbrev pub pure : {A : Type 0} → A → Io W A
  pure a w = (ok a, w)

  abbrev pub raise : {A : Type 0} → Exception → Io W A
  raise e w = (throw e, w)

  -- A synchronous computation that may throw.
  abbrev pub lift : {A : Type 0} → Result A → Io W A
  lift r w = (r, w)

  abbrev pub then_run : {A B : Type 0} → Result A × W → (A → Io W B) → Result B × W
  then_run (ok a, w) k = k a w
  then_run (throw e, w) k = (throw e, w)

  infixl 5 ◌>>=◌
  abbrev pub ◌>>=◌ : {A B : Type 0} → Io W A → (A → Io W B) → Io W B
  ◌>>=◌ m k w = then_run (m w) k

  abbrev pub catch_run : {A : Type 0} → Result A × W → (Exception → Io W A) → Result A × W
  catch_run (ok a, w) k = (ok a, w)
  catch_run (throw e, w) k = k e w

  -- `try { return await m } catch (e) { return await k(e) }`
  abbrev pub try_catch : {A : Type 0} → Io W A → (Exception → Io W A) → Io W A
  try_catch m k w = catch_run (m w) k

  pub then_run_assoc :
      {A B C : Type 0} (r : Result A × W) (f : A → Io W B) (g : B → Io W C)
      → then_run (then_run r f) g ≡ then_run r (λ a. f a >>= g)
  then_run_assoc (ok a, w) f g = refl
  then_run_assoc (throw e, w) f g = refl
