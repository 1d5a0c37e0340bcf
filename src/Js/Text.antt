-- ===== src/Js/Text.antt =====
-- Texts that the language makes of values: `String(value)` and `JSON.stringify(value)`.
use Prim.Native.Char.{Char}
use open_task.Common.{
  List, [], ◌∷◌, get_or, ℕ, zero, suc, ◌/◌, ◌%◌, String, ◌<>◌, ◌≡◌, true, false, ltb, if◌then◌else◌,
}
use open_task.Common.Int.{ℤ, pos, negsuc}
use open_task.Js.Value.{
  DateValue, time, HostObject, Value, undefined, null, boolean, number, string, date, array, set,
  object, host, Elems, nil, cons, is_nullish,
}

-- The platform's texts: `toISOString` of a time value, `Date.parse` of a text, and `toString` of a
-- date and of a platform's object. The law is that of ECMAScript: `Date.parse(d.toISOString())` is the
-- time value of `d`.
pub record Platform : Type 0 where
  pub iso : ℤ → String
  pub parse : String → DateValue
  pub text : DateValue → String
  pub host_text : HostObject → String
  pub parse-iso : (t : ℤ) → parse (iso t) ≡ time t

-- A digit below sixteen, in capitals.
abbrev pub hex_digits : List Char
hex_digits =
    "0" ∷ "1" ∷ "2" ∷ "3" ∷ "4" ∷ "5" ∷ "6" ∷ "7" ∷ "8" ∷ "9" ∷ "A" ∷ "B" ∷ "C" ∷ "D" ∷ "E" ∷ []

unfoldable pub hex_digit : ℕ → Char
hex_digit n = get_or hex_digits n "F"

abbrev pub char_text : Char → String
char_text c = String.◌∷◌ c String.[]

-- The decimal digits of a number, in front of `rest`; more fuel than digits is enough.
decimal_from : ℕ → ℕ → String → String
decimal_from zero n rest = rest
decimal_from (suc fuel) n rest =
    let out = String.◌∷◌ (hex_digit (n % 10)) rest in
    let more = decimal_from fuel (n / 10) out in if ltb n 10 then out else more

unfoldable pub decimal : ℕ → String
unfolding decimal_from hex_digit
decimal n = decimal_from (suc n) n ""

-- `String(n)` of a whole number
unfoldable pub integer_text : ℤ → String
unfolding decimal
integer_text (pos n) = decimal n
integer_text (negsuc n) = "-" <> decimal (suc n)

module _ (d : Platform) where
  unfoldable mutual
    unfolding integer_text

    -- `String(value)`
    pub js_string : Value → String
    js_string undefined = "undefined"
    js_string null = "null"
    js_string (boolean true) = "true"
    js_string (boolean false) = "false"
    js_string (number n) = integer_text n
    js_string (string s) = s
    js_string (date t) = d.text t
    js_string (array vs) = joined_text vs
    js_string (set vs) = "[object Set]"
    js_string (object ps) = "[object Object]"
    js_string (host h) = d.host_text h

    -- The items of an array between commas; null and undefined are empty.
    joined_text : Elems → String
    joined_text nil = ""
    joined_text (cons v nil) = if is_nullish v then "" else js_string v
    joined_text (cons v (cons w vs)) =
        (if is_nullish v then "" else js_string v) <> ("," <> joined_text (cons w vs))
