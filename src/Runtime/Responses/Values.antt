-- ===== src/Runtime/Responses/Values.antt =====
-- What `mapValues` makes of an object.
use open_task.Common.{String, ◌≡◌, refl, true, if◌then◌else◌, ok, arith, eq_iff}
use open_task.Js.Value.{
  Value, undefined, Props, empty, prop, get_prop, has_key, has_distinct_keys, set_prop,
  get_prop-set_prop,
}
use open_task.Runtime.Responses.{map_values, map_from}

module _ (f : Value → Value) where
  map_from_lem :
      (acc ps : Props) (k : String)
      → has_distinct_keys ps ≡ true
      → (out : Props) × (map_from acc (λ v. ok (f v)) ps ≡ ok out)
        × (get_prop out k ≡ (if has_key ps k then f (get_prop ps k) else get_prop acc k))
  unfolding map_from
  map_from_lem acc empty k h = (acc, refl, refl)
  map_from_lem acc (prop j v ps) k h =
      let acc' = set_prop acc j (f v) in
      let (out, made, holds) = map_from_lem acc' ps k (ground arith) in
      (out, made, ground (arith, holds, eq_iff j k, get_prop-set_prop acc j k (f v)))

  -- Of an object with distinct names, and a function that does not throw, `mapValues` makes an object
  -- that holds the function's value under each of the names, and nothing under any other.
  pub get_prop-map_values :
      (ps : Props) (k : String)
      → has_distinct_keys ps ≡ true
      → (out : Props) × (map_values ps (λ v. ok (f v)) ≡ ok out)
        × (get_prop out k ≡ (if has_key ps k then f (get_prop ps k) else undefined))
  unfolding map_values
  get_prop-map_values ps k h = map_from_lem empty ps k h
