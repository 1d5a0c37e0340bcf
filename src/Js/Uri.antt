-- ===== src/Js/Uri.antt =====
-- `encodeURIComponent`, and the bytes that a server reads back.
pub mod Decode
use Prim.Native.Char.{Char, code}
use Prim.Native.String
use text.Mathlib.TextLemmas.{nil-append, cons-append}
use open_task.Common.{
  ℕ, suc, ◌+◌, ◌-◌, ◌*◌, ◌/◌, ◌%◌, ◌≤◌, ◌<◌, String, ◌<>◌, Bool, true, false, ◌≡◌, refl, sym, ◌&&◌,
  ◌||◌, List, [], ◌∷◌, ◌++◌, ltb, leb, eqb, if◌then◌else◌, arith, All, All-get_or, All-append,
  all_below, all_below_sound, Bool-cases, inl, inr, ap, ◌∙◌,
}
use open_task.Js.Text.{char_text, hex_digits, hex_digit}

-- The code points of a text.
abbrev pub codes : String → List ℕ
codes String.[] = []
codes (String.◌∷◌ c s) = code c ∷ codes s

-- `A-Z a-z 0-9 - _ . ! ~ * ' ( )`
is_unreserved : ℕ → Bool
is_unreserved c =
    leb b'A' c && leb c b'Z'
    || leb b'a' c && leb c b'z'
    || leb b'0' c && leb c b'9'
    || eqb c b'-'
    || eqb c b'_'
    || eqb c b'.'
    || eqb c b'!'
    || eqb c b'~'
    || eqb c b'*'
    || eqb c 39
    || eqb c b'('
    || eqb c b')'

-- The bytes of a code point in UTF-8.
unfoldable pub utf8 : ℕ → List ℕ
utf8 c =
    if ltb c 0x80
    then c ∷ []
    else if ltb c 0x800
    then (0xc0 + c / 64) ∷ (0x80 + c % 64) ∷ []
    else if ltb c 0x10000
    then (0xe0 + c / 4096) ∷ (0x80 + c / 64 % 64) ∷ (0x80 + c % 64) ∷ []
    else (0xf0 + c / 262144) ∷ (0x80 + c / 4096 % 64) ∷ (0x80 + c / 64 % 64) ∷ (0x80 + c % 64) ∷ []

unfoldable pub percent : ℕ → String
percent b = String.◌∷◌ "%" (String.◌∷◌ (hex_digit (b / 16)) (char_text (hex_digit (b % 16))))

percents : List ℕ → String
percents [] = ""
percents (b ∷ bs) = percent b <> percents bs

encode_char : Char → String
encode_char c = if is_unreserved (code c) then char_text c else percents (utf8 (code c))

unfoldable pub encode_uri_component : String → String
unfolding encode_char percents percent is_unreserved utf8 hex_digit
encode_uri_component String.[] = ""
encode_uri_component (String.◌∷◌ c s) = encode_char c <> encode_uri_component s

encode_test : encode_uri_component "a b&é€😀" ≡ "a%20b%26%C3%A9%E2%82%AC%F0%9F%98%80"
unfolding encode_uri_component
encode_test = refl

pub codes-append : (s t : String) → codes (s <> t) ≡ codes s ++ codes t
codes-append String.[] t = ap codes (nil-append t)
codes-append (String.◌∷◌ c s) t =
    ap codes (cons-append c s t) ∙ ap (◌∷◌ (code c)) (codes-append s t)
