-- ===== src/Runtime/Mime.antt =====
-- `isJsonMime` of ui/vite-opentask/src/apis-gen/runtime.ts and the expression that it tests.
pub mod Types
pub mod Words
pub mod Accepted
use open_task.Common.{
  ℕ, ◌-◌, String, ◌==◌, Bool, true, false, ◌≡◌, refl, ◌&&◌, ◌||◌, not, List, [], ◌∷◌, eqb, leb,
  if◌then◌else◌, ◌↔◌, ◌≢◌, arith, eq_iff,
}
use open_task.Js.Uri.{codes}
use open_task.Runtime.Regex.{Regex, nothing, chars, seq, alt, star, Matches, matches, matches_iff}

-- One character, without regard to case (the flag `i`), for a small letter or a sign.
unfoldable pub letter : ℕ → Regex
letter c = chars (λ x. eqb x c || (leb b'a' c && leb c b'z' && eqb x (c - 32)))

unfoldable pub word : List ℕ → Regex
word [] = nothing
word (c ∷ cs) = seq (letter c) (word cs)

unfoldable pub optional : Regex → Regex
optional r = alt r nothing

-- `[ \t]`
unfoldable pub is_blank : ℕ → Bool
is_blank c = eqb c b' ' || eqb c 9

-- `[^;/ \t]`
unfoldable pub is_token : ℕ → Bool
is_token c = not (eqb c b';' || eqb c b'/' || is_blank c)

-- `.`: anything but a line end
unfoldable pub is_dot : ℕ → Bool
is_dot c = not (eqb c 10 || eqb c 13 || eqb c 8232 || eqb c 8233)

unfoldable pub plus : Regex → Regex
plus r = seq r (star r)

-- `^(:?application\/json|[^;/ \t]+\/[^;/ \t]+[+]json)[ \t]*(:?;.*)?$`
unfoldable pub json_regex : Regex
unfolding word letter optional is_token is_blank is_dot plus
json_regex =
    seq
      (alt (seq (optional (letter b':')) (word (codes "application/json"))) (
        seq (plus (chars is_token)) (
          seq (letter b'/')
            (seq (plus (chars is_token)) (seq (letter b'+') (word (codes "json")))))))
      (seq (star (chars is_blank))
        (optional (seq (optional (letter b':')) (seq (letter b';') (star (chars is_dot))))))

-- `isJsonMime`, of a text that is there
unfoldable pub is_json_mime : String → Bool
is_json_mime mime = if mime == "" then false else matches json_regex (codes mime)

pub application_json : is_json_mime "application/json" ≡ true
unfolding is_json_mime json_regex matches
application_json = refl

json_mimes :
    (is_json_mime "application/json" ≡ true)
    × (is_json_mime "application/json; charset=UTF8" ≡ true)
    × (is_json_mime "APPLICATION/JSON" ≡ true)
    × (is_json_mime "application/vnd.company+json" ≡ true)
    × (is_json_mime "text/plain" ≡ false)
    × (is_json_mime "application/json x" ≡ false)
    × (is_json_mime ":application/json" ≡ true)
unfolding is_json_mime json_regex matches
json_mimes = (refl, refl, refl, refl, refl, refl, refl)

-- isJsonMime accepts a text exactly when it is not empty and the regular expression of the client,
-- read as a language, contains it.
pub is_json_mime_iff :
    (mime : String) → (is_json_mime mime ≡ true) ↔ ((mime ≢ "") × Matches json_regex (codes mime))
unfolding is_json_mime
is_json_mime_iff mime =
    let (to, from) = matches_iff json_regex (codes mime) in
    (
      λ h. (ground (arith, eq_iff mime ""), to (ground arith)),
      λ h. ground (arith, eq_iff mime "", from h.1, h.0),
    )
