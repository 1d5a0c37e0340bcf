-- ===== src/Tests/Samples.antt =====
-- A platform, whose ISO text of a time is a sign and as many signs as the time has units, and the
-- console's client over a storage that may hold a token.
use Prim.Native.Char.{code}
use open_task.Common.{
  ℕ, zero, suc, String, ◌==◌, ◌≡◌, refl, ap, Option, none, some, if◌then◌else◌, eqb, ok,
}
use open_task.Common.Int.{ℤ, pos, negsuc}
use open_task.Js.Value.{DateValue, invalid, time, null}
use open_task.Js.Text.{Platform}
use open_task.Js.Exception.{Response}
use open_task.Runtime.Io.{Io}
use open_task.Runtime.Config.{FetchParams}
use open_task.Runtime.Fetch.{BaseApi, new_api}
use open_task.AppConfig.{config}

abbrev pub unary : ℕ → String
unary zero = ""
unary (suc n) = String.◌∷◌ "x" (unary n)

abbrev pub size : String → ℕ
size String.[] = zero
size (String.◌∷◌ c s) = suc (size s)

size-unary : (n : ℕ) → size (unary n) ≡ n
size-unary zero = refl
size-unary (suc n) = ap suc (size-unary n)

abbrev pub iso_text : ℤ → String
iso_text (pos n) = String.◌∷◌ "+" (unary n)
iso_text (negsuc n) = String.◌∷◌ "-" (unary n)

abbrev pub parse_text : String → DateValue
parse_text String.[] = invalid
parse_text (String.◌∷◌ c s) =
    if eqb (code c) b'+' then time (pos (size s)) else time (negsuc (size s))

pub parse_text-iso_text : (t : ℤ) → parse_text (iso_text t) ≡ time t
parse_text-iso_text (pos n) = ap (λ k. time (pos k)) (size-unary n)
parse_text-iso_text (negsuc n) = ap (λ k. time (negsuc k)) (size-unary n)

unfoldable pub platform : Platform
platform = record {
  iso = iso_text;
  parse = parse_text;
  text = λ t. "date";
  host_text = λ h. "[object Blob]";
  parse-iso = parse_text-iso_text;
}

-- The storage holds a token, or none.
abbrev pub Storage : Type 0
Storage = Option String

abbrev pub read_item : Storage → String → Option String
read_item w key = if key == "token" then w else none

abbrev pub api_url : String
api_url = "http://localhost:8080"

unfoldable pub console : BaseApi Storage
console = new_api (config read_item api_url)

abbrev pub answer : Response
answer = record { status = 200; json = some null }

abbrev pub answering : FetchParams → Io Storage Response
answering p w = (ok answer, w)
