-- ===== src/Runtime/Responses.antt =====
-- The helpers of ui/vite-opentask/src/apis-gen/runtime.ts beside the calls: `mapValues`,
-- `canConsumeForm`, and the responses that are no JSON.
pub mod Values
use open_task.Common.{
  String, ◌==◌, Bool, true, false, List, [], ◌∷◌, if◌then◌else◌, ok, throw, ◌>>=◌,
}
use open_task.Js.Value.{Value, undefined, string, Props, empty, prop, set_prop}
use open_task.Js.Exception.{Response, Result}
use open_task.Runtime.Io.{Io, pure}

-- The `reduce` over the keys of an object: `{ ...acc, [key]: fn(data[key]) }`.
map_from : Props → (Value → Result Value) → Props → Result Props
map_from acc fn empty = ok acc
map_from acc fn (prop k v ps) = fn v >>= λ u. map_from (set_prop acc k u) fn ps

unfoldable pub map_values : Props → (Value → Result Value) → Result Props
unfolding map_from
map_values values fn = map_from empty fn values

-- `Consume`
pub record Consume : Type 0 where
  pub content_type : String

unfoldable pub can_consume_form : List Consume → Bool
can_consume_form [] = false
can_consume_form (consume ∷ rest) =
    if "multipart/form-data" == consume.content_type then true else can_consume_form rest

-- `COLLECTION_FORMATS`
abbrev pub collection_formats : List (String × String)
collection_formats = ("csv", ",") ∷ ("ssv", " ") ∷ ("tsv", "\t") ∷ ("pipes", "|") ∷ []

module _ {W : Type 0} where
  -- `VoidApiResponse.value`
  unfoldable pub void_value : Response → Io W Value
  void_value raw = pure undefined

  -- `BlobApiResponse.value` and `TextApiResponse.value`; `blob` and `text` are the platform's.
  unfoldable pub blob_value : (Response → Io W Value) → Response → Io W Value
  blob_value blob raw = blob raw

  unfoldable pub text_value : (Response → Io W String) → Response → Io W String
  text_value text raw = text raw
