-- ===== src/Models/Codec/RoundTrip.antt =====
-- What a model's encoder sends arrives at its decoder: the laws of a codec, property by property.
use open_task.Common.{String, Bool, true, false, ◌≡◌, refl, ap, List, [], ◌∷◌, ok, arith}
use open_task.Js.Value.{
  Value, undefined, string, date, array, object, time, Elems, nil, cons, Props, get_prop,
  is_nullish, has_distinct_keys,
}
use open_task.Js.Text.{Platform}
use open_task.Js.Json.{
  new_date, wire, wire_elems, wire_props, is_json, is_json_elems, get_prop-wire_props,
  wire_of_is_json,
}
use open_task.Models.Codec.{
  Nullable, missing, nulled, given, Codec, read, read_date, write_date, read_child, read_items,
  read_list, write_items, write_list, IsOptional, is_string, is_number, is_boolean, is_date,
  is_object, all_strings, is_strings, IsOptionalOf, IsEach,
}

-- The type that a test recognises holds JSON values only, and neither null nor undefined.
record IsPlain (test : Value → Bool) : Type 0 where
  plain : (v : Value) → test v ≡ true → (is_json v ≡ true) × (is_nullish v ≡ false)

is_string-IsPlain : IsPlain is_string
unfolding is_json
is_string-IsPlain = record { plain = λ v h. ground arith }

is_number-IsPlain : IsPlain is_number
unfolding is_json
is_number-IsPlain = record { plain = λ v h. ground arith }

is_boolean-IsPlain : IsPlain is_boolean
unfolding is_json
is_boolean-IsPlain = record { plain = λ v h. ground arith }

object_plain : (v : Value) → is_object v ≡ true → (is_json v ≡ true) × (is_nullish v ≡ false)
object_plain (object ps) h = (h, refl)
object_plain v h = cc

is_object-IsPlain : IsPlain is_object
is_object-IsPlain = record { plain = object_plain }

is_json-all_strings : (vs : Elems) → all_strings vs ≡ true → is_json_elems vs ≡ true
unfolding all_strings is_json
is_json-all_strings nil h = refl
is_json-all_strings (cons v vs) h = ground (arith, is_json-all_strings vs)

strings_plain : (v : Value) → is_strings v ≡ true → (is_json v ≡ true) × (is_nullish v ≡ false)
unfolding is_json is_strings
strings_plain (array vs) h = (is_json-all_strings vs h, refl)
strings_plain v h = cc

is_strings-IsPlain : IsPlain is_strings
is_strings-IsPlain = record { plain = strings_plain }

-- The text that an encoder writes for a date.
abbrev pub date_text : Platform → Value → Value
date_text d (date (time t)) = string (d.iso t)
date_text d v = v

pub write_date_lem :
    (d : Platform) (v : Value) → IsOptional is_date v → write_date d v ≡ ok (date_text d v)
write_date_lem d undefined h = refl
write_date_lem d (date (time t)) h = refl
write_date_lem d v h = cc

module _ (d : Platform) where
  arrives_plain : (v : Value) → is_json v ≡ true → is_nullish v ≡ false → read (wire d v) ≡ v
  arrives_plain v json real = rw (wire_of_is_json d v json) (ground arith)

  pub wire_of_is_string : (v : Value) → is_string v ≡ true → wire d v ≡ v
  unfolding wire
  wire_of_is_string v h = ground arith

  arrives :
      {test : Value → Bool} (p : IsPlain test) (v : Value) → IsOptional test v → read (wire d v) ≡ v
  unfolding wire
  arrives p undefined h = refl
  arrives p v h = let (json, real) = p.plain v h in arrives_plain v json real

  -- A property of an encoded model, as its decoder reads it.
  field :
      {test : Value → Bool} (p : IsPlain test) (ps : Props) (k : String)
      → has_distinct_keys ps ≡ true
      → IsOptional test (get_prop ps k)
      → read (get_prop (wire_props d ps) k) ≡ get_prop ps k
  field p ps k u h = rw (get_prop-wire_props d ps k u) (arrives p (get_prop ps k) h)

  pub string_field :
      (ps : Props) (k : String)
      → has_distinct_keys ps ≡ true
      → IsOptional is_string (get_prop ps k)
      → read (get_prop (wire_props d ps) k) ≡ get_prop ps k
  string_field = field is_string-IsPlain

  pub number_field :
      (ps : Props) (k : String)
      → has_distinct_keys ps ≡ true
      → IsOptional is_number (get_prop ps k)
      → read (get_prop (wire_props d ps) k) ≡ get_prop ps k
  number_field = field is_number-IsPlain

  pub boolean_field :
      (ps : Props) (k : String)
      → has_distinct_keys ps ≡ true
      → IsOptional is_boolean (get_prop ps k)
      → read (get_prop (wire_props d ps) k) ≡ get_prop ps k
  boolean_field = field is_boolean-IsPlain

  pub object_field :
      (ps : Props) (k : String)
      → has_distinct_keys ps ≡ true
      → IsOptional is_object (get_prop ps k)
      → read (get_prop (wire_props d ps) k) ≡ get_prop ps k
  object_field = field is_object-IsPlain

  pub strings_field :
      (ps : Props) (k : String)
      → has_distinct_keys ps ≡ true
      → IsOptional is_strings (get_prop ps k)
      → read (get_prop (wire_props d ps) k) ≡ get_prop ps k
  strings_field = field is_strings-IsPlain

  -- A property that was not sent is read as undefined.
  pub missing_field :
      (ps : Props) (k : String)
      → has_distinct_keys ps ≡ true
      → get_prop ps k ≡ undefined
      → read (get_prop (wire_props d ps) k) ≡ undefined
  unfolding wire
  missing_field ps k u e = rw (get_prop-wire_props d ps k u, e)

  -- A date arrives as the same date: it is sent as text and parsed again.
  date_arrives : (v : Value) → IsOptional is_date v → read_date d (wire d (date_text d v)) ≡ v
  unfolding wire new_date
  date_arrives undefined h = refl
  date_arrives (date (time t)) h = ap date (d.parse-iso t)
  date_arrives v h = cc

  pub date_field :
      (ps : Props) (k : String) (v : Value)
      → has_distinct_keys ps ≡ true
      → get_prop ps k ≡ date_text d v
      → IsOptional is_date v
      → read_date d (get_prop (wire_props d ps) k) ≡ v
  date_field ps k v u e h = rw (get_prop-wire_props d ps k u, e) (date_arrives v h)

  module _ {A : Type 0} where
    -- What an encoder sends for `a` arrives, and is decoded to `a`.
    pub record Carries (c : Codec A) (a : A) : Type 0 where
      pub sent : Props
      pub sends : c.to_json (given a) ≡ ok (object sent)
      pub receives : c.from_json (object (wire_props d sent)) ≡ ok (given a)

    -- A codec that carries each model for which `P` holds.
    pub record IsLawful (c : Codec A) (P : A → Type 0) : Type 0 where
      pub sends_missing : c.to_json missing ≡ ok undefined
      pub carries : (a : A) → P a → Carries c a

    -- The same of an optional property, a model of its own.
    pub record CarriesChild (c : Codec A) (o : Nullable A) : Type 0 where
      pub value : Value
      pub sends : c.to_json o ≡ ok value
      pub receives : read_child c (wire d value) ≡ ok o

    pub child_carried :
        {c : Codec A} {P : A → Type 0}
        → IsLawful c P
        → (o : Nullable A) → IsOptionalOf P o
        → CarriesChild c o
    unfolding wire
    child_carried l missing h = record {
      value = undefined;
      sends = l.sends_missing;
      receives = refl;
    }
    child_carried l nulled h = absurd h
    child_carried l (given a) h =
        let r = l.carries a h in
        record { value = object r.sent; sends = r.sends; receives = r.receives }

    -- And of a list of models.
    record CarriesItems (c : Codec A) (as_ : List (Nullable A)) : Type 0 where
      items : Elems
      sends : write_items c as_ ≡ ok items
      receives : read_items c (wire_elems d items) ≡ ok as_

    items_carried :
        {c : Codec A} {P : A → Type 0}
        → IsLawful c P
        → (as_ : List (Nullable A)) → IsEach P as_
        → CarriesItems c as_
    unfolding wire write_items read_items
    items_carried l [] h = record { items = nil; sends = refl; receives = refl }
    items_carried l (given a ∷ as_) (h, hs) =
        let r = l.carries a h in
        let rs = items_carried l as_ hs in
        record {
          items = cons (object r.sent) rs.items;
          sends = rw (r.sends, rs.sends) refl;
          receives = rw (r.receives, rs.receives) refl;
        }
    items_carried l (missing ∷ as_) h = absurd h
    items_carried l (nulled ∷ as_) h = absurd h

    pub record CarriesList (c : Codec A) (o : Nullable (List (Nullable A))) : Type 0 where
      pub value : Value
      pub sends : write_list c o ≡ ok value
      pub receives : read_list c (wire d value) ≡ ok o

    pub list_carried :
        {c : Codec A} {P : A → Type 0}
        → IsLawful c P
        → (o : Nullable (List (Nullable A))) → IsOptionalOf (IsEach P) o
        → CarriesList c o
    unfolding wire write_list read_list
    list_carried l missing h = record { value = undefined; sends = refl; receives = refl }
    list_carried l nulled h = absurd h
    list_carried l (given as_) h =
        let r = items_carried l as_ h in
        record { value = array r.items; sends = rw (r.sends) refl; receives = rw (r.receives) refl }
