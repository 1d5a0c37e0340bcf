-- ===== src/Js/Uri/Decode.antt =====
-- What a server reads back from an encoded text: the bytes of its UTF-8, and no separator.
use Prim.Native.Char.{Char, char, code}
use open_task.Common.{
  ℕ, ◌+◌, ◌-◌, ◌*◌, ◌/◌, ◌%◌, ◌<◌, String, true, false, ◌≡◌, refl, sym, List, [], ◌∷◌, ◌++◌, leb,
  eqb, if◌then◌else◌, arith, All, All-get_or, All-append, all_below, all_below_sound, Bool-cases,
  inl, inr, ap, ◌∙◌,
}
use mathlib.Core.List.{append_assoc, append-nil}
use open_task.Js.Text.{hex_digits, hex_digit}
use open_task.Js.Uri.{
  codes, is_unreserved, utf8, percent, percents, encode_char, encode_uri_component, codes-append,
}

-- Where the reader stands: in the text, behind a percent sign, behind its first digit.
pub data Mode : Type 0 where
  plain first : Mode
  second : ℕ → Mode

hex_value : ℕ → ℕ
hex_value c = if leb c b'9' then c - 48 else c - 55

pub percent_decode : Mode → List ℕ → List ℕ
percent_decode mode [] = []
percent_decode plain (c ∷ s) =
    let escaped = percent_decode first s in
    let kept = c ∷ percent_decode plain s in if eqb c b'%' then escaped else kept
percent_decode first (c ∷ s) = percent_decode (second (hex_value c)) s
percent_decode (second h) (c ∷ s) = (h * 16 + hex_value c) ∷ percent_decode plain s

-- The bytes of a text.
abbrev pub bytes : String → List ℕ
bytes String.[] = []
bytes (String.◌∷◌ c s) = utf8 (code c) ++ bytes s

hex_value_table : all_below 16 (λ n. eqb (hex_value (code (hex_digit n))) n) ≡ true
unfolding hex_value hex_digit
hex_value_table = refl

hex_value-hex_digit : (n : ℕ) → n < 16 → hex_value (code (hex_digit n)) ≡ n
hex_value-hex_digit n h =
    ground
      (arith, all_below_sound 16 (λ n. eqb (hex_value (code (hex_digit n))) n) n hex_value_table h)

code-lt : (c : Char) → code c < 0x110000
code-lt (char n p) = ground arith

IsByte : ℕ → Type 0
IsByte b = b < 256

utf8-lt : (c : ℕ) → c < 0x110000 → All IsByte (utf8 c)
unfolding utf8 IsByte
utf8-lt c h = ground arith

byte_parts : (b : ℕ) → b / 16 * 16 + b % 16 ≡ b
byte_parts b = omega arith

decode-percent :
    (b : ℕ) (rest : List ℕ)
    → IsByte b
    → percent_decode plain (codes (percent b) ++ rest) ≡ b ∷ percent_decode plain rest
unfolding percent percent_decode IsByte
decode-percent b rest h = rw (
  hex_value-hex_digit (b / 16) (omega arith),
  hex_value-hex_digit (b % 16) (omega arith),
  byte_parts b,
)

decode-percents :
    (bs rest : List ℕ)
    → All IsByte bs
    → percent_decode plain (codes (percents bs) ++ rest) ≡ bs ++ percent_decode plain rest
unfolding percents
decode-percents [] rest h = refl
decode-percents (b ∷ bs) rest h = rw (
  codes-append (percent b) (percents bs),
  append_assoc,
  decode-percent b (codes (percents bs) ++ rest) h.0,
  decode-percents bs rest h.1,
)

utf8_of_is_unreserved : (c : ℕ) → is_unreserved c ≡ true → (utf8 c ≡ c ∷ []) × (eqb c b'%' ≡ false)
unfolding utf8 is_unreserved
utf8_of_is_unreserved c h = ground arith

decode-encode_char :
    (c : Char) (rest : List ℕ)
    → percent_decode plain (codes (encode_char c) ++ rest)
      ≡ utf8 (code c) ++ percent_decode plain rest
unfolding encode_char percent_decode
decode-encode_char c rest = elim (Bool-cases (is_unreserved (code c))) [
  | inl kept ↦ let (same, sign) = utf8_of_is_unreserved (code c) kept in rw (kept, same) (rw sign)
  | inr other ↦ rw other (decode-percents (utf8 (code c)) rest (utf8-lt (code c) (code-lt c)))
]

-- The server reads the bytes of the text that was encoded, and reads on behind it.
pub decode-encode :
    (s : String) (rest : List ℕ)
    → percent_decode plain (codes (encode_uri_component s) ++ rest)
      ≡ bytes s ++ percent_decode plain rest
unfolding encode_uri_component
decode-encode String.[] rest = refl
decode-encode (String.◌∷◌ c s) rest = rw (
  codes-append (encode_char c) (encode_uri_component s),
  append_assoc,
  decode-encode_char c (codes (encode_uri_component s) ++ rest),
  decode-encode s rest,
  append_assoc,
)

pub decode-encode_all :
    (s : String) → percent_decode plain (codes (encode_uri_component s)) ≡ bytes s
unfolding percent_decode
decode-encode_all s =
    ap (percent_decode plain) (sym (append-nil (codes (encode_uri_component s))))
    ∙ decode-encode s []
    ∙ append-nil (bytes s)

-- A sign that separates no parts of a query.
abbrev pub IsInner : ℕ → Type 0
IsInner c = (eqb c b'&' ≡ false) × (eqb c b'=' ≡ false)

hex_digit-IsInner : (n : ℕ) → IsInner (code (hex_digit n))
unfolding hex_digit
hex_digit-IsInner n =
    All-get_or (λ c. IsInner (code c)) hex_digits n "F" (ground arith) (refl, refl)

percent-IsInner : (b : ℕ) → All IsInner (codes (percent b))
unfolding percent
percent-IsInner b = ((refl, refl), (hex_digit-IsInner (b / 16), (hex_digit-IsInner (b % 16), tt)))

percents-IsInner : (bs : List ℕ) → All IsInner (codes (percents bs))
unfolding percents
percents-IsInner [] = tt
percents-IsInner (b ∷ bs) = rw (codes-append (percent b) (percents bs)) (
    All-append IsInner (codes (percent b)) (codes (percents bs)) (percent-IsInner b)
      (percents-IsInner bs))

is_unreserved-IsInner : (c : ℕ) → is_unreserved c ≡ true → IsInner c
unfolding is_unreserved
is_unreserved-IsInner c h = ground arith

encode_char-IsInner : (c : Char) → All IsInner (codes (encode_char c))
unfolding encode_char
encode_char-IsInner c = elim (Bool-cases (is_unreserved (code c))) [
  | inl kept ↦ rw kept (is_unreserved-IsInner (code c) kept, tt)
  | inr other ↦ rw other (percents-IsInner (utf8 (code c)))
]

-- An encoded text separates no parts of a query.
pub encode-IsInner : (s : String) → All IsInner (codes (encode_uri_component s))
unfolding encode_uri_component
encode-IsInner String.[] = tt
encode-IsInner (String.◌∷◌ c s) = rw (codes-append (encode_char c) (encode_uri_component s)) (
    All-append IsInner (codes (encode_char c)) (codes (encode_uri_component s))
      (encode_char-IsInner c) (encode-IsInner s))
