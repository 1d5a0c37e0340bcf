-- ===== src/Models/Codec.antt =====
-- The patterns that the generated files of ui/vite-opentask/src/apis-gen/models repeat. A model is a
-- record of the values that its properties hold: the decoders check no type, and what was absent
-- is `undefined`.
pub mod RoundTrip
use open_task.Common.{
  String, Bool, true, false, ◌≡◌, refl, ◌⊎◌, inl, inr, List, [], ◌∷◌, if◌then◌else◌, ok, throw,
  ◌>>=◌, arith, ◌&&◌,
}
use open_task.Js.Value.{
  Value, undefined, null, boolean, number, string, date, array, object, DateValue, invalid, time,
  Elems, nil, cons, Props, get_prop, get, is_nullish, has_distinct_keys,
}
use open_task.Js.Text.{Platform}
use open_task.Js.Json.{
  new_date, wire, wire_elems, wire_props, is_json, is_json_elems, get_prop-wire_props,
  wire_of_is_json,
}
use open_task.Js.Exception.{Result, type_error, range_error}

-- A value that TypeScript declares to be an `A`, and that may be undefined (`missing`) or null.
pub data Nullable (A : Type 0) : Type 0 where
  missing nulled : Nullable A
  given : A → Nullable A

pub record Codec (A : Type 0) : Type 0 where
  pub from_json : Value → Result (Nullable A)
  pub to_json : Nullable A → Result Value

-- `if (json == null) return json;` before the rest of a decoder.
abbrev pub decode : {A : Type 0} → Value → Result A → Result (Nullable A)
decode undefined body = ok missing
decode null body = ok nulled
decode _ body = body >>= λ a. ok (given a)

-- `if (value == null) return value;` before the rest of an encoder.
abbrev pub encode : {A : Type 0} → Nullable A → (A → Result Value) → Result Value
encode missing body = ok undefined
encode nulled body = ok null
encode (given a) body = body a

-- `json[k] == null ? undefined : json[k]`, at `v = json[k]`
abbrev pub read : Value → Value
read v = if is_nullish v then undefined else v

-- `json[k] == null ? undefined : (new Date(json[k]))`
abbrev pub read_date : Platform → Value → Value
read_date d v = if is_nullish v then undefined else date (new_date d v)

-- `value[k] == null ? undefined : value[k].toISOString()`: no method of that name on other values,
-- and a RangeError on an invalid date.
abbrev pub write_date : Platform → Value → Result Value
write_date d undefined = ok undefined
write_date d null = ok undefined
write_date d (date (time t)) = ok (string (d.iso t))
write_date d (date invalid) = throw range_error
write_date d _ = throw type_error

-- `json[k] == null ? undefined : MFromJSON(json[k])`
abbrev pub read_child : {A : Type 0} → Codec A → Value → Result (Nullable A)
read_child c v = if is_nullish v then ok missing else c.from_json v

read_items : {A : Type 0} → Codec A → Elems → Result (List (Nullable A))
read_items c nil = ok []
read_items c (cons v vs) = do a ← c.from_json v; as_ ← read_items c vs; ok (a ∷ as_)

-- `json[k] == null ? undefined : (json[k] as Array<any>).map(MFromJSON)`: a TypeError on what has no
-- method `map`.
unfoldable pub read_list : {A : Type 0} → Codec A → Value → Result (Nullable (List (Nullable A)))
unfolding read_items
read_list c undefined = ok missing
read_list c null = ok missing
read_list c (array vs) = read_items c vs >>= λ as_. ok (given as_)
read_list c _ = throw type_error

write_items : {A : Type 0} → Codec A → List (Nullable A) → Result Elems
write_items c [] = ok nil
write_items c (a ∷ as_) = do v ← c.to_json a; vs ← write_items c as_; ok (cons v vs)

-- `value[k] == null ? undefined : (value[k] as Array<any>).map(MToJSON)`
unfoldable pub write_list : {A : Type 0} → Codec A → Nullable (List (Nullable A)) → Result Value
unfolding write_items
write_list c missing = ok undefined
write_list c nulled = ok undefined
write_list c (given as_) = write_items c as_ >>= λ vs. ok (array vs)

-- A property that TypeScript declares optional, of a type that `test` recognises.
abbrev pub IsOptional : (Value → Bool) → Value → Type 0
IsOptional test undefined = Unit
IsOptional test v = test v ≡ true

abbrev pub is_string : Value → Bool
is_string (string s) = true
is_string _ = false

abbrev pub is_number : Value → Bool
is_number (number n) = true
is_number _ = false

abbrev pub is_boolean : Value → Bool
is_boolean (boolean b) = true
is_boolean _ = false

-- A `Date` that is no invalid one.
abbrev pub is_date : Value → Bool
is_date (date (time t)) = true
is_date _ = false

-- `object`, of JSON values.
abbrev pub is_object : Value → Bool
is_object (object ps) = is_json (object ps)
is_object _ = false

all_strings : Elems → Bool
all_strings nil = true
all_strings (cons v vs) = is_string v && all_strings vs

-- `Array<string>`
unfoldable pub is_strings : Value → Bool
unfolding all_strings
is_strings (array vs) = all_strings vs
is_strings _ = false

abbrev pub IsOptionalOf : {A : Type 0} → (A → Type 0) → Nullable A → Type 0
IsOptionalOf P missing = Unit
IsOptionalOf P nulled = ⊥
IsOptionalOf P (given a) = P a

abbrev pub IsEach : {A : Type 0} → (A → Type 0) → List (Nullable A) → Type 0
IsEach P [] = Unit
IsEach P (nulled ∷ as_) = ⊥
IsEach P (missing ∷ as_) = ⊥
IsEach P (given a ∷ as_) = P a × IsEach P as_
