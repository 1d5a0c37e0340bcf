-- ===== src/Js/Stringify/Plain.antt =====
-- The JSON of a text that needs no escapes.
use Prim.Native.Char.{Char, code}
use text.Mathlib.TextLemmas.{nil-append, cons-append}
use open_task.Common.{
  String, ◌<>◌, Bool, true, false, ◌≡◌, refl, ap, ◌∙◌, ltb, eqb, not, ◌&&◌, arith,
}
use open_task.Js.Value.{string}
use open_task.Js.Text.{Platform, char_text}
use open_task.Js.Stringify.{stringify, text_of, escape, escaped, quote}

-- No quotation mark, no backslash and no control character, as in every JSON Web Token.
abbrev pub is_plain : String → Bool
is_plain String.[] = true
is_plain (String.◌∷◌ c s) =
    not (eqb (code c) 34) && (not (eqb (code c) 92) && (not (ltb (code c) 32) && is_plain s))

pub is_plain-parts :
    (c : Char) (t : String)
    → is_plain (String.◌∷◌ c t) ≡ true
    → (eqb (code c) 34 ≡ false)
      × (eqb (code c) 92 ≡ false)
      × (ltb (code c) 32 ≡ false)
      × (is_plain t ≡ true)
is_plain-parts c t h = ground arith

escape_plain :
    (c : Char)
    → eqb (code c) 34 ≡ false
    → eqb (code c) 92 ≡ false
    → ltb (code c) 32 ≡ false
    → escape c ≡ char_text c
unfolding escape
escape_plain c q b l = ground arith

escaped-is_plain : (t : String) → is_plain t ≡ true → escaped t ≡ t
unfolding escaped
escaped-is_plain String.[] h = refl
escaped-is_plain (String.◌∷◌ c t) h =
    let (q, b, l, rest) = is_plain-parts c t h in
    rw (escape_plain c q b l, escaped-is_plain t rest)
      (cons-append c String.[] t ∙ ap (String.◌∷◌ c) (nil-append t))

pub stringify_plain :
    (d : Platform) (t : String)
    → is_plain t ≡ true
    → stringify d (string t) ≡ string ("\"" <> (t <> "\""))
unfolding stringify text_of quote
stringify_plain d t h = rw (escaped-is_plain t h) refl
