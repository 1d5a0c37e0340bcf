-- ===== src/Runtime/Mime/Words.antt =====
-- What the pieces of the client's expression match.
use open_task.Common.{
  ℕ, Bool, true, ◌≡◌, refl, ◌&&◌, not, List, [], ◌∷◌, map, All, leb, ◌↔◌, ◌≢◌, arith, and_parts,
  ◌⊎◌, inl, inr,
}
use open_task.Runtime.Regex.{
  chars, star, Matches, m_nothing, m_chars, m_seq, m_left, m_right, m_done, m_more, is_empty,
  seq_parts,
}
use open_task.Runtime.Mime.{letter, word, optional, is_blank, is_token, is_dot, plus}
use open_task.Runtime.Mime.Types.{fold, IsName}

pub chars_parts :
    {p : ℕ → Bool} {s : List ℕ} → Matches (chars p) s → (c : ℕ) × (p c ≡ true) × (s ≡ c ∷ [])
chars_parts (m_chars c h e) = (c, h, e)

-- No capital letter.
abbrev pub is_small : ℕ → Bool
is_small c = not (leb b'A' c && leb c b'Z')

abbrev pub are_small : List ℕ → Bool
are_small [] = true
are_small (c ∷ cs) = is_small c && are_small cs

pub word_sound : (cs s : List ℕ) → are_small cs ≡ true → Matches (word cs) s → map fold s ≡ cs
unfolding word letter
word_sound [] s h m = rw (is_empty m) refl
word_sound (c ∷ cs) s h m =
    let (t, u, a, b, e) = seq_parts m in
    let (x, same, one) = chars_parts a in
    let (small, others) = and_parts (is_small c) (are_small cs) h in
    let rest = word_sound cs u others b in
    let first : fold x ≡ c = ground (arith, same, small) in rw (e, one) (cc (first, rest))

pub word_complete : (cs s : List ℕ) → are_small cs ≡ true → map fold s ≡ cs → Matches (word cs) s
unfolding word letter
word_complete [] [] h e = m_nothing refl
word_complete [] (x ∷ s) h e = cc
word_complete (c ∷ cs) [] h e = cc
word_complete (c ∷ cs) (x ∷ s) h e =
    let (small, others) = and_parts (is_small c) (are_small cs) h in
    let first : fold x ≡ c = ground (arith, e) in
    let rest : map fold s ≡ cs = ground (arith, e) in
    m_seq (x ∷ []) s (m_chars x (ground (arith, first, small)) refl)
      (word_complete cs s others rest) refl

pub star_sound : (p : ℕ → Bool) {s : List ℕ} → Matches (star (chars p)) s → All (λ c. p c ≡ true) s
star_sound p (m_done e) = rw e tt
star_sound p (m_more c t u m n e) =
    let (x, h, one) = chars_parts m in
    let alone : t ≡ [] = ground (arith, one) in
    let same : c ≡ x = ground (arith, one) in rw (e, alone) (rw same h, star_sound p n)

pub star_complete :
    (p : ℕ → Bool) (s : List ℕ) → All (λ c. p c ≡ true) s → Matches (star (chars p)) s
star_complete p [] h = m_done refl
star_complete p (c ∷ s) h = m_more c [] s (m_chars c h.0 refl) (star_complete p s h.1) refl

pub All-change : (P Q : ℕ → Type 0) (s : List ℕ) → ((c : ℕ) → P c → Q c) → All P s → All Q s
All-change P Q [] f h = tt
All-change P Q (c ∷ s) f h = (f c h.0, All-change P Q s f h.1)

pub token_apart : (c : ℕ) → (is_token c ≡ true) ↔ ((c ≢ b';') × (c ≢ b'/') × (c ≢ b' ') × (c ≢ 9))
unfolding is_token is_blank
token_apart c = (
  λ h. (
    λ e. ground (arith, e, h),
    λ e. ground (arith, e, h),
    λ e. ground (arith, e, h),
    λ e. ground (arith, e, h),
  ),
  λ h. ground (arith, h.0, h.1, h.2, h.3),
)

pub dot_apart : (c : ℕ) → (is_dot c ≡ true) ↔ ((c ≢ 10) × (c ≢ 13) × (c ≢ 8232) × (c ≢ 8233))
unfolding is_dot
dot_apart c = (
  λ h. (
    λ e. ground (arith, e, h),
    λ e. ground (arith, e, h),
    λ e. ground (arith, e, h),
    λ e. ground (arith, e, h),
  ),
  λ h. ground (arith, h.0, h.1, h.2, h.3),
)

pub IsName-sound : (s : List ℕ) → Matches (plus (chars is_token)) s → IsName s
unfolding plus
IsName-sound s m =
    let (t, u, a, b, e) = seq_parts m in
    let (c, h, one) = chars_parts a in
    let whole : s ≡ c ∷ u = rw (e, one) refl in
    record {
      filled = λ none. cc (none, whole);
      plain = rw whole (
          All-change (λ c. is_token c ≡ true) _ (c ∷ u) (λ c. (token_apart c).0)
            (h, star_sound is_token b));
    }

pub IsName-complete : (s : List ℕ) → IsName s → Matches (plus (chars is_token)) s
unfolding plus
IsName-complete [] h = absurd (h.filled refl)
IsName-complete (c ∷ s) h =
    let plain = All-change _ (λ c. is_token c ≡ true) (c ∷ s) (λ c. (token_apart c).1) h.plain in
    m_seq (c ∷ []) s (m_chars c plain.0 refl) (star_complete is_token s plain.1) refl

-- No small letter: the only character of its expression is itself.
abbrev pub is_sign : ℕ → Bool
is_sign c = not (leb b'a' c && leb c b'z')

pub sign_sound : (c : ℕ) {s : List ℕ} → is_sign c ≡ true → Matches (letter c) s → s ≡ c ∷ []
unfolding letter
sign_sound c h m =
    let (x, same, one) = chars_parts m in
    let is_c : x ≡ c = ground (arith, same, h) in rw (one, is_c) refl

pub sign_complete : (c : ℕ) → Matches (letter c) (c ∷ [])
unfolding letter
sign_complete c = m_chars c (ground arith) refl

pub optional_colon : {s : List ℕ} → Matches (optional (letter b':')) s → (s ≡ []) ⊎ (s ≡ b':' ∷ [])
unfolding optional
optional_colon (m_left m) = inr (sign_sound b':' refl m)
optional_colon (m_right m) = inl (is_empty m)

pub colon_optional : Matches (optional (letter b':')) (b':' ∷ [])
unfolding optional
colon_optional = m_left (sign_complete b':')

pub nothing_optional : Matches (optional (letter b':')) []
unfolding optional
nothing_optional = m_right (m_nothing refl)
