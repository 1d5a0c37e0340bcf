-- ===== src/Runtime/Query.antt =====
-- `querystring` of ui/vite-opentask/src/apis-gen/runtime.ts: the text behind the `?` of a URL.
pub mod Parse
use Prim.Native.String
use open_task.Common.{
  String, ◌<>◌, ◌==◌, Bool, true, false, ◌≡◌, refl, List, [], ◌∷◌, ok, throw, ◌>>=◌, if◌then◌else◌,
}
use open_task.Common.Int.{pos}
use open_task.Js.Value.{
  invalid, time, Value, undefined, null, boolean, number, string, date, array, set, object, host,
  Elems, nil, cons, Props, empty, prop,
}
use open_task.Js.Text.{Platform, js_string}
use open_task.Js.Uri.{encode_uri_component}
use open_task.Js.Exception.{Result, range_error}

-- `Array.prototype.join`
abbrev pub join : String → List String → String
join sep [] = ""
join sep (s ∷ []) = s
join sep (s ∷ t ∷ rest) = s <> (sep <> join sep (t ∷ rest))

-- `parts.filter(part => part.length > 0)`
abbrev pub non_empty : List String → List String
non_empty [] = []
non_empty (s ∷ rest) = if s == "" then non_empty rest else s ∷ non_empty rest

full_key : String → String → String
full_key prefix key = if prefix == "" then key else prefix <> ("[" <> (key <> "]"))

-- `key=text`, both encoded
pair : String → String → String
pair key text = encode_uri_component key <> ("=" <> encode_uri_component text)

module _ (d : Platform) where
  encoded_items : Elems → List String
  encoded_items nil = []
  encoded_items (cons v vs) = encode_uri_component (js_string d v) ∷ encoded_items vs

  multi_value : String → Elems → String
  unfolding encoded_items
  multi_value key vs =
      encode_uri_component key
      <> ("=" <> join ("&" <> (encode_uri_component key <> "=")) (encoded_items vs))

  unfoldable mutual
    unfolding full_key pair multi_value

    -- `querystring`, before the empty parts are filtered and the rest is joined.
    pub parts : Props → String → Result (List String)
    parts empty prefix = ok []
    parts (prop key value params) prefix = do
      part ← querystring_single_key key value prefix
      rest ← parts params prefix
      ok (part ∷ rest)

    pub querystring_single_key : String → Value → String → Result String
    querystring_single_key key (array vs) prefix = ok (multi_value (full_key prefix key) vs)
    querystring_single_key key (set vs) prefix = ok (multi_value (full_key prefix key) vs)
    querystring_single_key key (date (time t)) prefix = ok (pair (full_key prefix key) (d.iso t))
    querystring_single_key key (date invalid) prefix = throw range_error
    querystring_single_key key (object params) prefix =
        parts params (full_key prefix key) >>= λ ps. ok (join "&" (non_empty ps))
    querystring_single_key key (host h) prefix = ok ""
    querystring_single_key key undefined prefix = ok (pair (full_key prefix key) "undefined")
    querystring_single_key key null prefix = ok (pair (full_key prefix key) "null")
    querystring_single_key key (boolean b) prefix =
        ok (pair (full_key prefix key) (js_string d (boolean b)))
    querystring_single_key key (number n) prefix =
        ok (pair (full_key prefix key) (js_string d (number n)))
    querystring_single_key key (string s) prefix = ok (pair (full_key prefix key) s)

  unfoldable pub querystring : Props → String → Result String
  unfolding parts
  querystring params prefix = parts params prefix >>= λ ps. ok (join "&" (non_empty ps))

querystring_test :
    (d : Platform)
    → querystring d
        (prop "Name" (string "a&b") (
          prop "n"
            (array (cons (number (pos 1)) (cons null nil)))
            (prop "o" (object (prop "x" (boolean true) empty)) (prop "none" (object empty) empty))))
        ""
      ≡ ok "Name=a%26b&n=1&n=null&o%5Bx%5D=true"
unfolding querystring encode_uri_component js_string
querystring_test d = refl
