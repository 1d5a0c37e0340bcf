-- ===== src/Session/Tokens.antt =====
-- The parts of a token, and the padding of its base64.
use Prim.Native.Char.{code}
use text.Mathlib.TextLemmas.{nil-append, cons-append}
use open_task.Common.{
  ◌+◌, ◌%◌, String, ◌<>◌, ◌≡◌, refl, ap, ◌∙◌, Bool, true, false, not, ◌&&◌, none, some, [], ◌∷◌,
  eqb, throw, arith, Bool-cases, inl, inr,
}
use open_task.Js.Value.{string}
use open_task.Session
use open_task.Session.{
  Host, split_dots, extended, jwt_decode, decode_part, base64_url_decode, translated, padded, size,
  decoded_text,
}

-- No dot, as in the encoded parts of a token.
abbrev pub has_no_dot : String → Bool
has_no_dot String.[] = true
has_no_dot (String.◌∷◌ c s) = not (eqb (code c) b'.') && has_no_dot s

split_dots-has_no_dot : (s : String) → has_no_dot s ≡ true → split_dots s ≡ (s ∷ [])
unfolding split_dots extended
split_dots-has_no_dot String.[] h = refl
split_dots-has_no_dot (String.◌∷◌ c s) h =
    let c_ok : eqb (code c) b'.' ≡ false = ground arith in
    let s_ok : has_no_dot s ≡ true = ground arith in rw (c_ok, split_dots-has_no_dot s s_ok)

split_dots-append :
    (s t : String) → has_no_dot s ≡ true → split_dots (s <> ("." <> t)) ≡ (s ∷ split_dots t)
unfolding split_dots extended
split_dots-append String.[] t h =
    ap split_dots
      (nil-append ("." <> t) ∙ cons-append "." String.[] t ∙ ap (String.◌∷◌ ".") (nil-append t))
split_dots-append (String.◌∷◌ c s) t h =
    let c_ok : eqb (code c) b'.' ≡ false = ground arith in
    let s_ok : has_no_dot s ≡ true = ground arith in
    ap split_dots (cons-append c s ("." <> t)) ∙ rw (c_ok, split_dots-append s t s_ok)

module _ (h : Host) where
  -- For a header and a payload without dots and any signature, jwtDecode of the three joined by dots
  -- is what the payload decodes to, or the header if that is asked for; and of the header alone it
  -- is the error of the missing part 2.
  pub jwt_decode_parts :
      (header payload signature : String)
      → has_no_dot header ≡ true
      → has_no_dot payload ≡ true
      → (jwt_decode h (string (header <> ("." <> (payload <> ("." <> signature))))) false
          ≡ decode_part h 1 (some payload))
        × (jwt_decode h (string (header <> ("." <> (payload <> ("." <> signature))))) true
            ≡ decode_part h 0 (some header))
        × (jwt_decode h (string header) false ≡ throw (Session.missing_part 2))
  unfolding jwt_decode decode_part
  jwt_decode_parts header payload signature p q =
      let rest = payload <> ("." <> signature) in
      (
        rw (split_dots-append header rest p, split_dots-append payload signature q),
        rw (split_dots-append header rest p),
        rw (split_dots-has_no_dot header p),
      )

size-translated : (s : String) → size (translated s) ≡ size s
unfolding translated
size-translated String.[] = refl
size-translated (String.◌∷◌ c s) = elim (Bool-cases (eqb (code c) b'-')) [
  | inl dash ↦ rw (dash, size-translated s) (ground arith)
  | inr other ↦ elim (Bool-cases (eqb (code c) b'_')) [
    | inl low ↦ rw (other, low, size-translated s) (ground arith)
    | inr plain ↦ rw (other, plain, size-translated s) refl
  ]
]

size-append : (s t : String) → size (s <> t) ≡ size s + size t
size-append String.[] t = omega (arith, ap size (nil-append t))
size-append (String.◌∷◌ c s) t = ap size (cons-append c s t) ∙ omega (arith, size-append s t)

-- A part whose length leaves the remainder 1 by 4 is refused, and any other is padded to a text
-- whose length is a multiple of 4.
pub padded-translated :
    (s : String)
    → (size s % 4 ≡ 1 → padded (translated s) ≡ none)
      × ((size s % 4 ≡ 1 → ⊥)
          → (output : String) × (padded (translated s) ≡ some output) × (size output % 4 ≡ 0))
unfolding padded
padded-translated s =
    let out = translated s in
    let same = size-translated s in
    (
      λ long.
          let no_zero : eqb (size s % 4) 0 ≡ false = ground arith in
          let no_two : eqb (size s % 4) 2 ≡ false = ground arith in
          let no_three : eqb (size s % 4) 3 ≡ false = ground arith in
          rw (same, no_zero, no_two, no_three),
      λ other. elim (Bool-cases (eqb (size s % 4) 0)) [
        | inl z ↦ (out, rw (same, z) refl, rw same (ground arith))
        | inr a ↦ elim (Bool-cases (eqb (size s % 4) 2)) [
          | inl t ↦
              let two : size s % 4 ≡ 2 = ground arith in
              (
                out <> "==",
                rw (same, a, t) refl,
                rw (size-append out "==", same) (omega (arith, two)),
              )
          | inr b ↦
              let three : eqb (size s % 4) 3 ≡ true = ground arith in
              let is_three : size s % 4 ≡ 3 = ground arith in
              (
                out <> "=",
                rw (same, a, b, three) refl,
                rw (size-append out "=", same) (omega (arith, is_three)),
              )
        ]
      ],
    )
