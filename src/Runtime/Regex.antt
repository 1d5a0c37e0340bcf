-- ===== src/Runtime/Regex.antt =====
-- Regular expressions over code points, as far as the client writes them, and their matching by
-- derivatives: `^r$` is tested by reading the text once.
use open_task.Common.{
  ℕ, Bool, true, false, ◌≡◌, refl, ◌&&◌, ◌||◌, List, [], ◌∷◌, ◌++◌, inl, inr, arith, Bool-cases,
  ◌↔◌, and_parts, sym, ap, ◌∙◌,
}

pub data Regex : Type 0 where
  none_at_all nothing : Regex
  chars : (ℕ → Bool) → Regex
  seq alt : Regex → Regex → Regex
  star : Regex → Regex

-- What a regular expression stands for.
pub data Matches : Regex → List ℕ → Type 0 where
  m_nothing : {s : List ℕ} → s ≡ [] → Matches nothing s
  m_chars : {p : ℕ → Bool} {s : List ℕ} (c : ℕ) → p c ≡ true → s ≡ c ∷ [] → Matches (chars p) s
  m_seq :
      {q r : Regex} {s : List ℕ} (t u : List ℕ)
      → Matches q t
      → Matches r u
      → s ≡ t ++ u
      → Matches (seq q r) s
  m_left : {q r : Regex} {s : List ℕ} → Matches q s → Matches (alt q r) s
  m_right : {q r : Regex} {s : List ℕ} → Matches r s → Matches (alt q r) s
  m_done : {r : Regex} {s : List ℕ} → s ≡ [] → Matches (star r) s
  m_more :
      {r : Regex} {s : List ℕ} (c : ℕ) (t u : List ℕ)
      → Matches r (c ∷ t)
      → Matches (star r) u
      → s ≡ c ∷ (t ++ u)
      → Matches (star r) s

unfoldable pub nullable : Regex → Bool
nullable none_at_all = false
nullable nothing = true
nullable (chars p) = false
nullable (seq q r) = nullable q && nullable r
nullable (alt q r) = nullable q || nullable r
nullable (star r) = true

abbrev when : Bool → Regex → Regex
when true r = r
when false r = none_at_all

-- What is left to match after the code point `c`.
derive : ℕ → Regex → Regex
derive c none_at_all = none_at_all
derive c nothing = none_at_all
derive c (chars p) = when (p c) nothing
derive c (seq q r) = alt (seq (derive c q) r) (when (nullable q) (derive c r))
derive c (alt q r) = alt (derive c q) (derive c r)
derive c (star r) = seq (derive c r) (star r)

unfoldable pub matches : Regex → List ℕ → Bool
unfolding nullable derive
matches r [] = nullable r
matches r (c ∷ s) = matches (derive c r) s

nullable_sound : (r : Regex) → nullable r ≡ true → Matches r []
unfolding nullable
nullable_sound none_at_all h = cc
nullable_sound nothing h = m_nothing refl
nullable_sound (chars p) h = cc
nullable_sound (seq q r) h =
    let (a, b) = and_parts (nullable q) (nullable r) h in
    m_seq [] [] (nullable_sound q a) (nullable_sound r b) refl
nullable_sound (alt q r) h = elim (Bool-cases (nullable q)) [
  | inl a ↦ m_left (nullable_sound q a)
  | inr a ↦ m_right (nullable_sound r (ground arith))
]
nullable_sound (star r) h = m_done refl

nullable_complete : {r : Regex} {s : List ℕ} → Matches r s → s ≡ [] → nullable r ≡ true
unfolding nullable
nullable_complete (m_nothing e) h = refl
nullable_complete (m_chars c p e) h = cc
nullable_complete (m_seq [] u m n e) h =
    ground (arith, nullable_complete m refl, nullable_complete n (cc))
nullable_complete (m_seq (c ∷ t) u m n e) h = cc
nullable_complete (m_left m) h = ground (arith, nullable_complete m h)
nullable_complete (m_right m) h = ground (arith, nullable_complete m h)
nullable_complete (m_done e) h = refl
nullable_complete (m_more c t u m n e) h = refl

impossible : {s : List ℕ} → Matches none_at_all s → ⊥
impossible m = elim m [ ]

pub is_empty : {s : List ℕ} → Matches nothing s → s ≡ []
is_empty (m_nothing e) = e

pub seq_parts :
    {q r : Regex} {s : List ℕ}
    → Matches (seq q r) s
    → (t : List ℕ) × (u : List ℕ) × Matches q t × Matches r u × (s ≡ t ++ u)
seq_parts (m_seq t u m n e) = (t, u, m, n, e)

when_sound : (b : Bool) (r : Regex) (s : List ℕ) → Matches (when b r) s → (b ≡ true) × Matches r s
when_sound true r s m = (refl, m)
when_sound false r s m = absurd (impossible m)

derive_sound : (c : ℕ) (r : Regex) (s : List ℕ) → Matches (derive c r) s → Matches r (c ∷ s)
unfolding derive
derive_sound c none_at_all s m = absurd (impossible m)
derive_sound c nothing s m = absurd (impossible m)
derive_sound c (chars p) s m =
    let (yes_p, rest) = when_sound (p c) nothing s m in m_chars c yes_p (ap (◌∷◌ c) (is_empty rest))
derive_sound c (seq q r) s (m_left m) =
    let (t, u, a, b, e) = seq_parts m in m_seq (c ∷ t) u (derive_sound c q t a) b (ap (◌∷◌ c) e)
derive_sound c (seq q r) s (m_right m) =
    let (n, b) = when_sound (nullable q) (derive c r) s m in
    m_seq [] (c ∷ s) (nullable_sound q n) (derive_sound c r s b) refl
derive_sound c (alt q r) s (m_left m) = m_left (derive_sound c q s m)
derive_sound c (alt q r) s (m_right m) = m_right (derive_sound c r s m)
derive_sound c (star r) s m =
    let (t, u, a, b, e) = seq_parts m in m_more c t u (derive_sound c r t a) b (ap (◌∷◌ c) e)

when_complete : (b : Bool) {r : Regex} {s : List ℕ} → b ≡ true → Matches r s → Matches (when b r) s
when_complete true h m = m
when_complete false h m = cc

derive_complete :
    (c : ℕ) {r : Regex} {z : List ℕ} (s : List ℕ) → Matches r z → z ≡ c ∷ s → Matches (derive c r) s
unfolding derive
derive_complete c s (m_nothing e) h = cc
derive_complete c s (m_chars {p} b h' e) h =
    when_complete (p c) (ground arith) (m_nothing (ground arith))
derive_complete c s (m_seq {q} [] u m n e) h =
    m_right
      (when_complete (nullable q) (nullable_complete m refl) (derive_complete c s n (sym e ∙ h)))
derive_complete c s (m_seq (b ∷ t) u m n e) h =
    m_left (m_seq t u (derive_complete c t m (ground arith)) n (ground arith))
derive_complete c s (m_left m) h = m_left (derive_complete c s m h)
derive_complete c s (m_right m) h = m_right (derive_complete c s m h)
derive_complete c s (m_done e) h = cc
derive_complete c s (m_more b t u m n e) h =
    m_seq t u (derive_complete c t m (ground arith)) n (ground arith)

-- The test decides what the expression stands for.
pub matches_iff : (r : Regex) (s : List ℕ) → (matches r s ≡ true) ↔ Matches r s
unfolding matches
matches_iff r [] = (nullable_sound r, λ m. nullable_complete m refl)
matches_iff r (c ∷ s) =
    let (to, from) = matches_iff (derive c r) s in
    (λ h. derive_sound c r s (to h), λ m. from (derive_complete c s m refl))
