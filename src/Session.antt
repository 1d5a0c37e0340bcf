-- ===== src/Session.antt =====
-- ui/vite-opentask/src/lib/jwt-decode.ts and ui/vite-opentask/src/store/index.tsx: the payload of a
-- token, and the current user. The reasons inside the messages of an InvalidTokenError are left out.
pub mod Tokens
pub mod Users
use Prim.Native.Char.{Char, code}
use Prim.Native.String
use open_task.Common.{
  ℕ, zero, suc, ◌+◌, ◌-◌, ◌*◌, ◌%◌, String, ◌<>◌, ◌==◌, Bool, true, false, not, ◌&&◌, ◌||◌, Option,
  none, some, List, [], ◌∷◌, get_elem?, leb, ltb, eqb, if◌then◌else◌, Outcome, ok, throw, ◌>>=◌,
}
use open_task.Common.Int.{ℤ, pos, negsuc, ◌-ℤ◌, ltb_ℤ}
use open_task.Js.Value.{
  Value, undefined, null, boolean, number, string, DateValue, invalid, time, get, is_nullish,
}
use open_task.Js.Text.{Platform, js_string}
use open_task.Js.Json.{new_date}
use open_task.Js.Uri.{percent}

-- What the code calls of the platform: `atob`, `decodeURIComponent`, `JSON.parse` and `Number` of a
-- text (none where they throw or give NaN), the clock and the mode of the build.
pub record Host : Type 0 where
  pub platform : Platform
  pub atob : String → Option String
  pub decode_uri_component : String → Option String
  pub parse_json : String → Option Value
  pub number_of : String → Option ℤ
  pub now : ℤ
  pub is_mock : Bool

-- `InvalidTokenError`, with the number of the part, and the errors of the store's own code.
pub data SessionError : Type 0 where
  must_be_a_string : SessionError
  missing_part invalid_base64 invalid_json : ℕ → SessionError
  type_error syntax_error : SessionError

abbrev pub Checked : Type 0 → Type 0
Checked A = Outcome SessionError A

-- A sign that `.` matches: no line terminator.
abbrev is_matched : ℕ → Bool
is_matched c = not (eqb c 10 || eqb c 13 || eqb c 0x2028 || eqb c 0x2029)

-- The bytes of a text that `atob` gave, each but the line terminators as a percent sign and two
-- hexadecimal digits.
unfoldable pub escape_bytes : String → String
unfolding percent
escape_bytes String.[] = ""
escape_bytes (String.◌∷◌ c s) =
    (if is_matched (code c) then percent (code c) else String.◌∷◌ c String.[]) <> escape_bytes s

-- `str.replace(/-/g, "+").replace(/_/g, "/")`
unfoldable pub translated : String → String
translated String.[] = ""
translated (String.◌∷◌ c s) =
    String.◌∷◌ (if eqb (code c) b'-' then "+" else if eqb (code c) b'_' then "/" else c)
      (translated s)

-- The units of UTF-16 of a code point.
abbrev pub units : ℕ → ℕ
units c = if ltb c 0x10000 then 1 else 2

-- `str.length`
abbrev pub size : String → ℕ
size String.[] = 0
size (String.◌∷◌ c s) = units (code c) + size s

-- The `switch` on the length: none where it throws.
unfoldable pub padded : String → Option String
padded output =
    let rest = size output % 4 in
    if eqb rest 0
    then some output
    else if eqb rest 2
    then some (output <> "==")
    else if eqb rest 3
    then some (output <> "=")
    else none

extended : Char → List String → List String
extended c [] = String.◌∷◌ c String.[] ∷ []
extended c (part ∷ parts) = String.◌∷◌ c part ∷ parts

-- `token.split(".")`
unfoldable pub split_dots : String → List String
unfolding extended
split_dots String.[] = "" ∷ []
split_dots (String.◌∷◌ c s) =
    let parts = split_dots s in if eqb (code c) b'.' then "" ∷ parts else extended c parts

abbrev pub required : {A : Type 0} → SessionError → Option A → Checked A
required e none = throw e
required e (some a) = ok a

module _ (h : Host) where
  -- `b64DecodeUnicode`, and `atob` where that throws
  unfoldable pub decoded_text : String → Option String
  unfolding escape_bytes
  decoded_text output = elim (h.atob output) [
    | none ↦ none
    | some bytes ↦ elim (h.decode_uri_component (escape_bytes bytes)) [
      | none ↦ some bytes
      | some text ↦ some text
    ]
  ]

  unfoldable pub base64_url_decode : String → Option String
  unfolding translated padded decoded_text
  base64_url_decode str = elim (padded (translated str)) [
    | none ↦ none
    | some output ↦ decoded_text output
  ]

  -- The part at an index, decoded and parsed.
  unfoldable pub decode_part : ℕ → Option String → Checked Value
  unfolding base64_url_decode
  decode_part i part = do
    text ← required (missing_part (i + 1)) part
    decoded ← required (invalid_base64 (i + 1)) (base64_url_decode text)
    required (invalid_json (i + 1)) (h.parse_json decoded)

  -- `jwtDecode`; `header` is the option of that name.
  unfoldable pub jwt_decode : Value → Bool → Checked Value
  unfolding split_dots decode_part
  jwt_decode (string token) header =
      let i = if header then 0 else 1 in decode_part i (get_elem? (split_dots token) i)
  jwt_decode token header = throw must_be_a_string

  -- `Number(value)`, none for NaN
  unfoldable pub to_number : Value → Option ℤ
  unfolding js_string
  to_number undefined = none
  to_number null = some (pos 0)
  to_number (boolean b) = some (if b then pos 1 else pos 0)
  to_number (number n) = some n
  to_number v = h.number_of (js_string h.platform v)

  -- The largest distance of a time value from the epoch.
  abbrev pub max_time : ℕ
  max_time = 8640000000000000

  -- `new Date(n * 1000)`
  unfoldable pub date_of_seconds : ℤ → DateValue
  date_of_seconds (pos n) = if leb (n * 1000) max_time then time (pos (n * 1000)) else invalid
  date_of_seconds (negsuc n) =
      if leb (suc n * 1000) max_time then time (negsuc (suc n * 1000 - 1)) else invalid

  -- `new Date(decoded.exp! * 1000)`
  unfoldable pub expiration : Value → DateValue
  unfolding to_number date_of_seconds
  expiration exp = elim (to_number exp) [ none ↦ invalid | some n ↦ date_of_seconds n ]

  abbrev pub five_minutes : ℕ
  five_minutes = 300000

  -- `expiration.getTime() - new Date().getTime() < fiveMinutes`; a NaN is not less.
  unfoldable pub is_expiring : DateValue → Bool
  is_expiring invalid = false
  is_expiring (time t) = ltb_ℤ (t -ℤ h.now) (pos five_minutes)

  -- `decoded.exp`, `decoded["User"]`: a TypeError on null.
  abbrev pub member : Value → String → Checked Value
  member null k = throw type_error
  member undefined k = throw type_error
  member v k = ok (get v k)

  -- `JSON.parse(decoded["User"])`
  unfoldable pub user_of : Value → Checked (Option Value)
  unfolding js_string
  user_of decoded = do
    text ← member decoded "User"
    user ← required syntax_error (h.parse_json (js_string h.platform text))
    ok (some user)

  -- `currentUserAtom`, of a token that is a text as the atom declares.
  unfoldable pub current_user : String → Checked (Option Value)
  unfolding jwt_decode expiration is_expiring user_of
  current_user token = if token == "" then ok none else (do
    decoded ← jwt_decode (string token) false
    exp ← member decoded "exp"
    if is_expiring (expiration exp) && not h.is_mock then ok none else user_of decoded)
