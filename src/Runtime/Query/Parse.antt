-- ===== src/Runtime/Query/Parse.antt =====
-- What a server reads from a query string: its parts at `&`, and each part at its first `=`.
use open_task.Common.{
  ℕ, String, ◌<>◌, ◌==◌, Bool, true, false, ◌≡◌, refl, sym, ap, ◌∙◌, List, [], ◌∷◌, ◌++◌, map, ok,
  if◌then◌else◌, eqb, All, All-map, All-append, eq_iff, ◌≢◌, Bool-cases, inl, inr,
}
use open_task.Js.Value.{Value, undefined, null, boolean, number, string, Props, empty, prop}
use open_task.Js.Text.{Platform, js_string}
use open_task.Js.Uri.{codes, encode_uri_component, codes-append}
use open_task.Js.Uri.Decode.{
  plain, percent_decode, bytes, decode-encode_all, IsInner, encode-IsInner,
}
use open_task.Runtime.Query.{join, non_empty, pair, parts, querystring}

abbrev prefix_first : ℕ → List (List ℕ) → List (List ℕ)
prefix_first c [] = (c ∷ []) ∷ []
prefix_first c (s ∷ rest) = (c ∷ s) ∷ rest

split_on : ℕ → List ℕ → List (List ℕ)
split_on sep [] = [] ∷ []
split_on sep (c ∷ s) =
    let rest = split_on sep s in if eqb c sep then [] ∷ rest else prefix_first c rest

-- The text in front of the first `=`, and the text behind it.
cut : List ℕ → List ℕ × List ℕ
cut [] = ([], [])
cut (c ∷ s) = let (a, b) = cut s in if eqb c b'=' then ([], s) else (c ∷ a, b)

read_pair : List ℕ → List ℕ × List ℕ
unfolding cut
read_pair part = let (k, v) = cut part in (percent_decode plain k, percent_decode plain v)

unfoldable pub parse_query : List ℕ → List (List ℕ × List ℕ)
unfolding split_on read_pair
parse_query s = map read_pair (split_on b'&' s)

IsApart : ℕ → List ℕ → Type 0
IsApart sep = All (λ c. eqb c sep ≡ false)

split_on-one : (sep : ℕ) (s : List ℕ) → IsApart sep s → split_on sep s ≡ s ∷ []
unfolding split_on IsApart
split_on-one sep [] h = refl
split_on-one sep (c ∷ s) h = rw (h.0, split_on-one sep s h.1)

split_on-append :
    (sep : ℕ) (s rest : List ℕ)
    → eqb sep sep ≡ true
    → IsApart sep s
    → split_on sep (s ++ sep ∷ rest) ≡ s ∷ split_on sep rest
unfolding split_on IsApart
split_on-append sep [] rest same h = rw same
split_on-append sep (c ∷ s) rest same h = rw (h.0, split_on-append sep s rest same h.1)

cut-append : (s t : List ℕ) → IsApart b'=' s → cut (s ++ b'=' ∷ t) ≡ (s, t)
unfolding cut IsApart
cut-append [] t h = refl
cut-append (c ∷ s) t h = rw (h.0, cut-append s t h.1)

IsApart-and : (s : List ℕ) → All IsInner s → IsApart b'&' s
unfolding IsApart
IsApart-and s h = All-map IsInner (λ c. eqb c b'&' ≡ false) (λ c k. k.0) s h

IsApart-eq : (s : List ℕ) → All IsInner s → IsApart b'=' s
unfolding IsApart
IsApart-eq s h = All-map IsInner (λ c. eqb c b'=' ≡ false) (λ c k. k.1) s h

-- A pair as the list of its code points.
codes-pair :
    (k v : String)
    → codes (pair k v) ≡ codes (encode_uri_component k) ++ b'=' ∷ codes (encode_uri_component v)
unfolding pair
codes-pair k v =
    codes-append (encode_uri_component k) ("=" <> encode_uri_component v)
    ∙ ap (◌++◌ (codes (encode_uri_component k))) (codes-append "=" (encode_uri_component v))

pair-IsApart : (k v : String) → IsApart b'&' (codes (pair k v))
unfolding IsApart
pair-IsApart k v = rw (codes-pair k v) (
    All-append (λ c. eqb c b'&' ≡ false) (codes (encode_uri_component k)) _
      (IsApart-and _ (encode-IsInner k)) (refl, IsApart-and _ (encode-IsInner v)))

read_pair-pair : (k v : String) → read_pair (codes (pair k v)) ≡ (bytes k, bytes v)
unfolding read_pair
read_pair-pair k v = rw (
  codes-pair k v,
  cut-append (codes (encode_uri_component k)) (codes (encode_uri_component v))
      (IsApart-eq _ (encode-IsInner k)),
  decode-encode_all k,
  decode-encode_all v,
)

append_cons-ne-nil : (xs : List ℕ) (y : ℕ) (ys : List ℕ) → xs ++ y ∷ ys ≢ []
append_cons-ne-nil [] y ys e = cc
append_cons-ne-nil (x ∷ xs) y ys e = cc

-- A pair is not empty, so none is filtered out.
pair-ne-empty : (k v : String) → (pair k v == "") ≡ false
pair-ne-empty k v = elim (Bool-cases (pair k v == "")) [
  | inl e ↦ absurd (
      append_cons-ne-nil (codes (encode_uri_component k)) b'=' (codes (encode_uri_component v))
        (sym (codes-pair k v) ∙ ap codes ((eq_iff (pair k v) "").0 e)))
  | inr e ↦ e
]

-- Parameters whose values are no objects: what every call of the client sends.
abbrev pub is_primitive : Value → Bool
is_primitive undefined = true
is_primitive null = true
is_primitive (boolean b) = true
is_primitive (number n) = true
is_primitive (string s) = true
is_primitive _ = false

abbrev pub IsFlat : Props → Type 0
IsFlat empty = Unit
IsFlat (prop k v ps) = (is_primitive v ≡ true) × IsFlat ps

module _ (d : Platform) where
  abbrev pairs : Props → List String
  pairs empty = []
  pairs (prop k v ps) = pair k (js_string d v) ∷ pairs ps

  -- The names and the texts of some parameters, in order, as bytes.
  abbrev pub entries : Props → List (List ℕ × List ℕ)
  entries empty = []
  entries (prop k v ps) = (bytes k, bytes (js_string d v)) ∷ entries ps

  parts-pairs : (ps : Props) → IsFlat ps → parts d ps "" ≡ ok (pairs ps)
  unfolding parts js_string
  parts-pairs empty h = refl
  parts-pairs (prop k undefined ps) h = rw (parts-pairs ps h.1)
  parts-pairs (prop k null ps) h = rw (parts-pairs ps h.1)
  parts-pairs (prop k (boolean b) ps) h = rw (parts-pairs ps h.1)
  parts-pairs (prop k (number n) ps) h = rw (parts-pairs ps h.1)
  parts-pairs (prop k (string s) ps) h = rw (parts-pairs ps h.1)
  parts-pairs (prop k v ps) h = cc

  non_empty-pairs : (ps : Props) → non_empty (pairs ps) ≡ pairs ps
  non_empty-pairs empty = refl
  non_empty-pairs (prop k v ps) = rw (pair-ne-empty k (js_string d v), non_empty-pairs ps)

  parse_query-join :
      (k : String) (v : Value) (ps : Props)
      → parse_query (codes (join "&" (pairs (prop k v ps)))) ≡ entries (prop k v ps)
  unfolding parse_query
  parse_query-join k v empty = rw (
    split_on-one b'&' (codes (pair k (js_string d v))) (pair-IsApart k (js_string d v)),
    read_pair-pair k (js_string d v),
  )
  parse_query-join k v (prop j w ps) =
      let one = pair k (js_string d v) in
      let rest = join "&" (pairs (prop j w ps)) in
      rw (
        codes-append one ("&" <> rest) ∙ ap (◌++◌ (codes one)) (codes-append "&" rest),
        split_on-append b'&' (codes one) (codes rest) refl (pair-IsApart k (js_string d v)),
        read_pair-pair k (js_string d v),
        parse_query-join j w ps,
      )

  -- For one or more parameters whose values are no dates, arrays, sets or objects, querystring
  -- without a prefix gives a text, and splitting that at & and =, and decoding the percent signs,
  -- gives the names and the texts of the values, in order, each as the bytes of its UTF-8.
  pub parse_query-querystring :
      (k : String) (v : Value) (ps : Props)
      → IsFlat (prop k v ps)
      → (q : String) × (querystring d (prop k v ps) "" ≡ ok q)
        × (parse_query (codes q) ≡ entries (prop k v ps))
  unfolding querystring
  parse_query-querystring k v ps h = (
    join "&" (pairs (prop k v ps)),
    rw (parts-pairs (prop k v ps) h) (rw (non_empty-pairs (prop k v ps))),
    parse_query-join k v ps,
  )
