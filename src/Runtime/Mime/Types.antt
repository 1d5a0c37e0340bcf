-- ===== src/Runtime/Mime/Types.antt =====
-- The MIME types that the client takes for JSON, by their parts.
use open_task.Common.{
  ℕ, ◌+◌, true, ◌≡◌, ◌&&◌, ◌||◌, List, [], ◌∷◌, ◌++◌, map, All, eqb, leb, if◌then◌else◌, ◌≢◌,
}
use open_task.Js.Uri.{codes}

-- A capital letter as the small one.
abbrev pub fold : ℕ → ℕ
fold c = if leb b'A' c && leb c b'Z' then c + 32 else c

-- A name between the separators of a type: not empty, and without `;`, `/`, spaces and tabs.
pub record IsName (s : List ℕ) : Type 0 where
  pub filled : s ≢ []
  pub plain : All (λ c. (c ≢ b';') × (c ≢ b'/') × (c ≢ b' ') × (c ≢ 9)) s

-- `application/json` in any case, also behind a colon, or any type whose name ends in `+json`.
pub data IsJsonType (s : List ℕ) : Type 0 where
  exactly : map fold s ≡ codes "application/json" → IsJsonType s
  behind_colon : (t : List ℕ) → map fold t ≡ codes "application/json" → s ≡ b':' ∷ t → IsJsonType s
  suffixed :
      (t u v : List ℕ)
      → IsName t
      → IsName u
      → map fold v ≡ codes "json"
      → s ≡ t ++ (b'/' ∷ (u ++ (b'+' ∷ v)))
      → IsJsonType s

-- Nothing, or a semicolon, also behind a colon, and anything but the ends of lines.
pub data IsParameters (s : List ℕ) : Type 0 where
  absent : s ≡ [] → IsParameters s
  given :
      (t : List ℕ)
      → All (λ c. (c ≢ 10) × (c ≢ 13) × (c ≢ 8232) × (c ≢ 8233)) t
      → (s ≡ b';' ∷ t)
      → IsParameters s
  given_behind_colon :
      (t : List ℕ)
      → All (λ c. (c ≢ 10) × (c ≢ 13) × (c ≢ 8232) × (c ≢ 8233)) t
      → (s ≡ b':' ∷ b';' ∷ t)
      → IsParameters s

-- A JSON type, spaces and tabs, and parameters.
pub record IsJsonMime (s : List ℕ) : Type 0 where
  pub type_part : List ℕ
  pub blanks : List ℕ
  pub parameters : List ℕ
  pub is_type : IsJsonType type_part
  pub are_blank : All (λ c. (eqb c b' ' || eqb c 9) ≡ true) blanks
  pub are_parameters : IsParameters parameters
  pub parts : s ≡ type_part ++ (blanks ++ parameters)
