-- ===== src/Js/Exception.antt =====
-- What the client's code throws or a promise of it rejects with: the language's errors, an `Error` of
-- the program's own, the error classes of ui/vite-opentask/src/apis-gen/runtime.ts, and values that
-- are no error object.
use open_task.Common.{ℕ, String, Bool, true, false, Option, Outcome}
use open_task.Js.Value.{Value}

-- A `Response`: its status, and its body read as JSON (`none` if the body is no JSON).
pub record Response : Type 0 where
  pub status : ℕ
  pub json : Option Value

pub data Exception : Type 0 where
  type_error range_error syntax_error network_error : Exception
  response_error : Response → String → Exception
  fetch_error : Exception → String → Exception
  required_error : String → String → Exception
  plain_error : String → Exception
  thrown : Value → Exception

-- `e instanceof Error`
abbrev pub is_error : Exception → Bool
is_error (thrown v) = false
is_error _ = true

abbrev pub Result : Type 0 → Type 0
Result A = Outcome Exception A
