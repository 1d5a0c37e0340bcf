-- ===== src/Runtime/Fetch/Headers.antt =====
-- The headers of a request.
use open_task.Common.{String, ◌≡◌, refl, true, if◌then◌else◌, arith}
use open_task.Js.Value.{
  Props, empty, get_prop, has_key, has_distinct_keys, assign, assign_distinct, get_prop-assign,
  get_prop_of_has_key, get_prop-delete_undefined, IsDefined, delete_undefined-IsDefined,
}
use open_task.Runtime.Config.{ConfigurationParameters}
use open_task.Runtime.Fetch.{merged_headers, or_else}

module _ {W : Type 0} (c : ConfigurationParameters W) where
  abbrev pub configured : Props
  configured = or_else (c.headers) empty

  get_prop-configured :
      (k : String)
      → has_distinct_keys configured ≡ true
      → get_prop (assign empty configured) k ≡ get_prop configured k
  get_prop-configured k h =
      ground (arith, get_prop-assign empty configured k h, get_prop_of_has_key configured k)

  -- When the names of the configured headers, and those of the call, are distinct, each header of a
  -- request is that of the call if the call names it and else the configured one, and no header is
  -- sent with the value undefined.
  pub get_prop-merged_headers :
      (headers : Props) (k : String)
      → has_distinct_keys configured ≡ true
      → has_distinct_keys headers ≡ true
      → (get_prop (merged_headers c headers) k
          ≡ (if has_key headers k then get_prop headers k else get_prop configured k))
        × IsDefined (merged_headers c headers)
  unfolding merged_headers
  get_prop-merged_headers headers k h₁ h₂ =
      let base = assign empty configured in
      let all = assign base headers in
      let distinct = assign_distinct base headers (assign_distinct empty configured refl) in
      (
        rw (
          get_prop-delete_undefined all k distinct,
          get_prop-assign base headers k h₂,
          get_prop-configured k h₁,
        ),
        delete_undefined-IsDefined all,
      )
