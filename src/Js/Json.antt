-- ===== src/Js/Json.antt =====
-- What a value is on the other side of the network: `JSON.parse(JSON.stringify(value))`, on trees.
-- An undefined property is dropped, an undefined item becomes null, a Date becomes its ISO text
-- (null if it is invalid).
use open_task.Common.{
  String, Bool, true, false, ◌≡◌, refl, ◌&&◌, eq_iff, arith, ap, and_parts, leb, ltb, if◌then◌else◌,
}
use open_task.Common.Int.{ℤ}
use open_task.Js.Text.{Platform, js_string}
use open_task.Js.Value.{
  DateValue, invalid, time, Value, undefined, null, boolean, number, string, date, array, set,
  object, host, Elems, nil, cons, Props, empty, prop, get_prop, get_prop_of_has_key, has_key,
  has_distinct_keys,
}

-- The time value of a number of milliseconds: invalid beyond 100,000,000 days from the epoch.
unfoldable pub time_clip : ℤ → DateValue
time_clip (ℤ.pos n) = if leb n 8640000000000000 then time (ℤ.pos n) else invalid
time_clip (ℤ.negsuc n) = if ltb n 8640000000000000 then time (ℤ.negsuc n) else invalid

-- `new Date(value)`. A value that is no primitive is converted to text first.
unfoldable pub new_date : Platform → Value → DateValue
unfolding js_string time_clip
new_date d undefined = invalid
new_date d null = time (ℤ.pos 0)
new_date d (boolean true) = time (ℤ.pos 1)
new_date d (boolean false) = time (ℤ.pos 0)
new_date d (number n) = time_clip n
new_date d (date t) = t
new_date d v = d.parse (js_string d v)

abbrev wire_date : Platform → DateValue → Value
wire_date d invalid = null
wire_date d (time t) = string (d.iso t)

abbrev null_of_undefined : Value → Value
null_of_undefined undefined = null
null_of_undefined v = v

-- The property stays unless its value `v` is undefined; `w` is what goes over the wire for it.
abbrev keep_defined : Value → String → Value → Props → Props
keep_defined undefined k w ps = ps
keep_defined _ k w ps = prop k w ps

-- A value that JSON can express: no undefined and no Date, at any depth.
unfoldable mutual
  pub is_json : Value → Bool
  is_json undefined = false
  is_json null = true
  is_json (boolean b) = true
  is_json (number n) = true
  is_json (string s) = true
  is_json (date t) = false
  is_json (array vs) = is_json_elems vs
  is_json (set vs) = false
  is_json (object ps) = is_json_props ps
  is_json (host h) = false

  pub is_json_elems : Elems → Bool
  is_json_elems nil = true
  is_json_elems (cons v vs) = is_json v && is_json_elems vs

  pub is_json_props : Props → Bool
  is_json_props empty = true
  is_json_props (prop k v ps) = is_json v && is_json_props ps

module _ (d : Platform) where
  unfoldable mutual
    pub wire : Value → Value
    wire undefined = undefined
    wire null = null
    wire (boolean b) = boolean b
    wire (number n) = number n
    wire (string s) = string s
    wire (date t) = wire_date d t
    wire (array vs) = array (wire_elems vs)
    wire (set vs) = object empty
    wire (object ps) = object (wire_props ps)
    wire (host h) = object empty

    pub wire_elems : Elems → Elems
    wire_elems nil = nil
    wire_elems (cons v vs) = cons (null_of_undefined (wire v)) (wire_elems vs)

    pub wire_props : Props → Props
    wire_props empty = empty
    wire_props (prop k v ps) = keep_defined v k (wire v) (wire_props ps)

  has_key-wire_props :
      (ps : Props) (k : String) → has_key ps k ≡ false → has_key (wire_props ps) k ≡ false
  unfolding wire
  has_key-wire_props empty k h = refl
  has_key-wire_props (prop j v ps) k h = ground (arith, has_key-wire_props ps k)

  -- A property that arrives is what was sent under its key, as it arrives; one that was undefined
  -- is still undefined on the other side.
  pub get_prop-wire_props :
      (ps : Props) (k : String)
      → has_distinct_keys ps ≡ true
      → get_prop (wire_props ps) k ≡ wire (get_prop ps k)
  unfolding wire
  get_prop-wire_props empty k h = refl
  get_prop-wire_props (prop j undefined ps) k h =
      ground (arith, eq_iff j k, get_prop-wire_props ps k, get_prop_of_has_key ps k)
  get_prop-wire_props (prop j v ps) k h = ground (arith, get_prop-wire_props ps k)

  -- A value that is JSON already arrives as it was sent.
  mutual
    unfolding wire is_json

    wire_json : (v : Value) → is_json v ≡ true → wire v ≡ v
    wire_json null h = refl
    wire_json (boolean b) h = refl
    wire_json (number n) h = refl
    wire_json (string s) h = refl
    wire_json (array vs) h = ap array (wire_elems_json vs h)
    wire_json (object ps) h = ap object (wire_props_json ps h)
    wire_json undefined h = cc
    wire_json (date t) h = cc
    wire_json (set vs) h = cc
    wire_json (host b) h = cc

    wire_elems_json : (vs : Elems) → is_json_elems vs ≡ true → wire_elems vs ≡ vs
    wire_elems_json nil h = refl
    wire_elems_json (cons v vs) h =
        let (hv, hvs) = and_parts (is_json v) (is_json_elems vs) h in
        ground (arith, wire_json v hv, wire_elems_json vs hvs)

    wire_props_json : (ps : Props) → is_json_props ps ≡ true → wire_props ps ≡ ps
    wire_props_json empty h = refl
    wire_props_json (prop k v ps) h =
        let (hv, hps) = and_parts (is_json v) (is_json_props ps) h in
        ground (arith, wire_json v hv, wire_props_json ps hps)

  pub wire_of_is_json : (v : Value) → is_json v ≡ true → wire v ≡ v
  wire_of_is_json v h = wire_json v h
