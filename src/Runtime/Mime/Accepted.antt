-- ===== src/Runtime/Mime/Accepted.antt =====
-- Which texts `isJsonMime` accepts.
use open_task.Common.{
  ℕ, String, true, ◌≡◌, refl, List, [], ◌∷◌, ◌++◌, All, ◌↔◌, ◌≢◌, arith, subst, inl, inr,
}
use open_task.Js.Uri.{codes}
use open_task.Runtime.Regex.{
  Regex, alt, chars, seq, star, Matches, m_nothing, m_seq, m_left, m_right, matches, matches_iff,
  nullable, is_empty, seq_parts,
}
use open_task.Runtime.Mime.{
  letter, word, optional, is_blank, is_token, is_dot, plus, json_regex, is_json_mime,
  is_json_mime_iff,
}
use open_task.Runtime.Mime.Types.{
  IsJsonType, exactly, behind_colon, suffixed, IsParameters, absent, given, given_behind_colon,
  IsJsonMime,
}
use open_task.Runtime.Mime.Words.{
  word_sound, word_complete, star_sound, star_complete, All-change, dot_apart, IsName-sound,
  IsName-complete, sign_sound, sign_complete, optional_colon, colon_optional, nothing_optional,
}

-- The two branches of the client's expression for the type, and its last group.
abbrev plain_type : Regex
plain_type = seq (optional (letter b':')) (word (codes "application/json"))

abbrev suffixed_type : Regex
suffixed_type =
    seq (plus (chars is_token))
      (seq (letter b'/') (seq (plus (chars is_token)) (seq (letter b'+') (word (codes "json")))))

abbrev parameter_group : Regex
parameter_group = seq (optional (letter b':')) (seq (letter b';') (star (chars is_dot)))

IsJsonType-sound : {s : List ℕ} → Matches (alt plain_type suffixed_type) s → IsJsonType s
IsJsonType-sound (m_left m) =
    let (t, u, a, b, e) = seq_parts m in
    let name = word_sound (codes "application/json") u refl b in
    elim (optional_colon a) [
      | inl none ↦ exactly (ground (arith, e, none, name))
      | inr colon ↦ behind_colon u name (rw (e, colon) refl)
    ]
IsJsonType-sound (m_right m) =
    let (t, m₁, a, b, e) = seq_parts m in
    let (slash, m₂, a₁, b₁, e₁) = seq_parts b in
    let (u, m₃, a₂, b₂, e₂) = seq_parts b₁ in
    let (sign, v, a₃, b₃, e₃) = seq_parts b₂ in
    suffixed t u v (IsName-sound t a) (IsName-sound u a₂) (word_sound (codes "json") v refl b₃)
      (rw (e, e₁, e₂, e₃, sign_sound b'/' refl a₁, sign_sound b'+' refl a₃) refl)

IsJsonType-complete : {s : List ℕ} → IsJsonType s → Matches (alt plain_type suffixed_type) s
IsJsonType-complete {s} (exactly name) =
    m_left (m_seq [] s nothing_optional (word_complete (codes "application/json") s refl name) refl)
IsJsonType-complete (behind_colon t name e) =
    m_left
      (m_seq (b':' ∷ []) t colon_optional (word_complete (codes "application/json") t refl name) e)
IsJsonType-complete (suffixed t u v h k name e) = m_right (
    m_seq t (b'/' ∷ (u ++ (b'+' ∷ v))) (IsName-complete t h)
      (m_seq (b'/' ∷ []) (u ++ (b'+' ∷ v)) (sign_complete b'/')
        (m_seq u (b'+' ∷ v) (IsName-complete u k)
          (m_seq (b'+' ∷ []) v (sign_complete b'+') (word_complete (codes "json") v refl name) refl)
          refl)
        refl)
      e)

IsParameters-sound : {s : List ℕ} → Matches (optional parameter_group) s → IsParameters s
unfolding optional
IsParameters-sound (m_right m) = absent (is_empty m)
IsParameters-sound (m_left m) =
    let (t, u, a, b, e) = seq_parts m in
    let (semicolon, rest, a₁, b₁, e₁) = seq_parts b in
    let anything =
      All-change (λ c. is_dot c ≡ true) _ rest (λ c. (dot_apart c).0) (star_sound is_dot b₁) in
    elim (optional_colon a) [
      | inl none ↦ given rest anything (rw (e, none, e₁, sign_sound b';' refl a₁) refl)
      | inr colon ↦
          given_behind_colon rest anything (rw (e, colon, e₁, sign_sound b';' refl a₁) refl)
    ]

rest_complete :
    (t : List ℕ)
    → All (λ c. (c ≢ 10) × (c ≢ 13) × (c ≢ 8232) × (c ≢ 8233)) t
    → Matches (seq (letter b';') (star (chars is_dot))) (b';' ∷ t)
rest_complete t h =
    m_seq (b';' ∷ []) t (sign_complete b';')
      (star_complete is_dot t (All-change _ (λ c. is_dot c ≡ true) t (λ c. (dot_apart c).1) h)) refl

IsParameters-complete : {s : List ℕ} → IsParameters s → Matches (optional parameter_group) s
unfolding optional
IsParameters-complete (absent e) = m_right (m_nothing e)
IsParameters-complete (given t h e) =
    m_left (m_seq [] (b';' ∷ t) nothing_optional (rest_complete t h) e)
IsParameters-complete (given_behind_colon t h e) =
    m_left (m_seq (b':' ∷ []) (b';' ∷ t) colon_optional (rest_complete t h) e)

not_empty : (mime : String) → mime ≡ "" → Matches json_regex (codes mime) → ⊥
unfolding json_regex matches nullable optional plus
not_empty mime none m =
    let read : matches json_regex [] ≡ true =
      subst (λ t. matches json_regex (codes t) ≡ true) none
        ((matches_iff json_regex (codes mime)).1 m) in
    ground (arith, read)

-- The client takes a text for the MIME type of JSON exactly when it is a JSON type, spaces and tabs,
-- and parameters: the type is application/json in any case, also behind a colon, or a name, a slash,
-- a name and +json in any case, where names are not empty and without semicolons, slashes, spaces
-- and tabs; and the parameters are nothing, or a semicolon, also behind a colon, and anything but
-- the ends of lines.
pub is_json_mime-IsJsonMime : (mime : String) → (is_json_mime mime ≡ true) ↔ IsJsonMime (codes mime)
unfolding json_regex
is_json_mime-IsJsonMime mime =
    let (to, from) = is_json_mime_iff mime in
    (
      λ h.
          let (t, u, a, b, e) = seq_parts ((to h).1) in
          let (blank, rest, a₁, b₁, e₁) = seq_parts b in
          record {
            type_part = t;
            blanks = blank;
            parameters = rest;
            is_type = IsJsonType-sound a;
            are_blank = star_sound is_blank a₁;
            are_parameters = IsParameters-sound b₁;
            parts = rw (e, e₁) refl;
          },
      λ h.
          let m : Matches json_regex (codes mime) =
            m_seq h.type_part (h.blanks ++ h.parameters) (IsJsonType-complete h.is_type)
              (m_seq h.blanks h.parameters (star_complete is_blank h.blanks h.are_blank)
                (IsParameters-complete h.are_parameters) refl)
              h.parts in
          from (λ none. not_empty mime none m, m),
    )
