-- ===== src/Tests/Libraries.antt =====
-- Libraries that meet what the forms and the tables assume of theirs.
use open_task.Common.{
  String, ◌==◌, ◌≡◌, refl, Bool, true, false, ◌&&◌, ◌||◌, Option, none, some, List, [], ◌∷◌, arith,
  if◌then◌else◌, eq_iff, and_parts, Bool-cases, inl, inr, sym, ap, subst,
}
use open_task.Js.Value.{Value, undefined, Props, empty, prop, get_prop, is_undefined}
use open_task.Models.Codec.{IsOptional}
use open_task.Forms.NewTask.{FieldSchema, Schema, Library, Accepted, field_of, is_of}

-- A schema library that accepts values as they are, if each is of its property's type.
unfoldable pub fits : List (String × FieldSchema) → Props → Bool
fits [] ps = true
fits ((k, s) ∷ fields) ps =
    (is_undefined (get_prop ps k) || is_of s (get_prop ps k)) && fits fields ps

abbrev pub is_there : Option FieldSchema → Bool
is_there none = false
is_there (some s) = true

unfoldable pub known : Props → List (String × FieldSchema) → Bool
known empty fields = true
known (prop k v ps) fields = is_there (field_of fields k) && known ps fields

IsOptional_of :
    (test : Value → Bool) (v : Value) → (is_undefined v || test v) ≡ true → IsOptional test v
IsOptional_of test undefined h = tt
IsOptional_of test v h = h

fits-Accepted :
    (fields : List (String × FieldSchema)) (ps : Props) → fits fields ps ≡ true → Accepted fields ps
unfolding fits
fits-Accepted [] ps h = tt
fits-Accepted ((k, s) ∷ fields) ps h =
    let parts = and_parts _ _ h in
    (IsOptional_of (is_of s) (get_prop ps k) parts.0, fits-Accepted fields ps parts.1)

get_prop_of_known :
    (ps : Props) (fields : List (String × FieldSchema)) (k : String)
    → known ps fields ≡ true
    → field_of fields k ≡ none
    → get_prop ps k ≡ undefined
unfolding known
get_prop_of_known empty fields k h e = refl
get_prop_of_known (prop j v ps) fields k h e =
    let parts = and_parts _ _ h in
    elim (Bool-cases (j == k)) [
      | inl same ↦
          let there : is_there (field_of fields j) ≡ true = parts.0 in
          let here : field_of fields j ≡ none =
            subst (λ i. field_of fields i ≡ none) (sym ((eq_iff j k).0 same)) e in
          absurd (cc (there, ap is_there here))
      | inr other ↦ rw other (get_prop_of_known ps fields k parts.1 e)
    ]

abbrev pub accepts : Schema → Props → Option Props
accepts s values = if fits s.fields values && known values s.fields then some values else none

accepted_fits :
    (s : Schema) (values accepted : Props)
    → accepts s values ≡ some accepted
    → (fits s.fields accepted && known accepted s.fields) ≡ true
accepted_fits s values accepted h =
    elim (Bool-cases (fits s.fields values && known values s.fields)) [
      | inl fine ↦
          let same : values ≡ accepted = ground (arith, h, fine) in
          subst (λ ps. (fits s.fields ps && known ps s.fields) ≡ true) same fine
      | inr other ↦ absurd (ground (arith, h, other))
    ]

pub accepts_only :
    (s : Schema) (values accepted : Props) (k : String)
    → accepts s values ≡ some accepted
    → field_of s.fields k ≡ none
    → get_prop accepted k ≡ undefined
accepts_only s values accepted k h e =
    get_prop_of_known accepted s.fields k
      (and_parts (fits s.fields accepted) (known accepted s.fields)
        (accepted_fits s values accepted h)).1
      e

pub accepts_typed :
    (s : Schema) (values accepted : Props)
    → accepts s values ≡ some accepted
    → Accepted s.fields accepted
accepts_typed s values accepted h =
    fits-Accepted s.fields accepted
      (and_parts (fits s.fields accepted) (known accepted s.fields)
        (accepted_fits s values accepted h)).0

abbrev pub when_accepted : {W : Type 0} → Option Props → (Props → W → W) → W → W
when_accepted none handler w = w
when_accepted (some accepted) handler w = handler accepted w

abbrev pub library : {W : Type 0} → Library W
library = record {
  resolve = accepts;
  only_fields = accepts_only;
  typed = accepts_typed;
  handle_submit = λ s handler values. when_accepted (accepts s values) handler;
  submits = λ s handler values accepted w h. rw h;
  rejects = λ s handler values w h. rw h;
}
