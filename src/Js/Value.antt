-- ===== src/Js/Value.antt =====
-- JavaScript values, as far as the generated client reads and writes them: `json: any` in
-- ui/vite-opentask/src/apis-gen. Numbers are whole numbers. An object is its own enumerable
-- properties in insertion order; no name that the client reads is a property of a prototype.
use open_task.Common.{
  ℕ, String, Bool, true, false, ◌≡◌, refl, ◌≢◌, ◌==◌, ◌||◌, ◌&&◌, not, if◌then◌else◌, eq_iff, arith,
  List, [], ◌∷◌,
}
use open_task.Common.Int.{ℤ, pos, eqb_ℤ}

-- A `Date`: its time value in milliseconds, or NaN.
pub data DateValue : Type 0 where
  invalid : DateValue
  time : ℤ → DateValue

-- An object of the platform with no enumerable properties of its own; the number tells two apart.
pub data HostObject : Type 0 where
  form_data url_search_params blob : ℕ → HostObject

mutual
  pub data Value : Type 0 where
    undefined null : Value
    boolean : Bool → Value
    number : ℤ → Value
    string : String → Value
    date : DateValue → Value
    array set : Elems → Value
    object : Props → Value
    host : HostObject → Value

  pub data Elems : Type 0 where
    nil : Elems
    cons : Value → Elems → Elems

  pub data Props : Type 0 where
    empty : Props
    prop : String → Value → Props → Props

abbrev pub elems : Elems → List Value
elems nil = []
elems (cons v vs) = v ∷ elems vs

abbrev pub of_list : List Value → Elems
of_list [] = nil
of_list (v ∷ vs) = cons v (of_list vs)

-- `value == null`
abbrev pub is_nullish : Value → Bool
is_nullish undefined = true
is_nullish null = true
is_nullish _ = false

-- `!!value`
abbrev pub truthy : Value → Bool
truthy undefined = false
truthy null = false
truthy (boolean b) = b
truthy (number n) = not (eqb_ℤ n (pos 0))
truthy (string s) = not (s == "")
truthy _ = true

abbrev pub is_undefined : Value → Bool
is_undefined undefined = true
is_undefined _ = false

abbrev pub get_prop : Props → String → Value
get_prop empty k = undefined
get_prop (prop j v ps) k = if j == k then v else get_prop ps k

-- `value[k]`, on a value that is neither null nor undefined.
abbrev pub get : Value → String → Value
get (object ps) k = get_prop ps k
get _ k = undefined

-- `object[k] = v`
unfoldable pub set_prop : Props → String → Value → Props
set_prop empty k v = prop k v empty
set_prop (prop j w ps) k v = if j == k then prop k v ps else prop j w (set_prop ps k v)

abbrev pub has_key : Props → String → Bool
has_key empty k = false
has_key (prop j v ps) k = j == k || has_key ps k

-- No key occurs twice, as in every object of the language.
abbrev pub has_distinct_keys : Props → Bool
has_distinct_keys empty = true
has_distinct_keys (prop k v ps) = not (has_key ps k) && has_distinct_keys ps

-- `Object.assign({}, a, b)` from the properties of `a`.
unfoldable pub assign : Props → Props → Props
assign ps empty = ps
assign ps (prop k v qs) = assign (set_prop ps k v) qs

pub get_prop-set_prop :
    (ps : Props) (k j : String) (v : Value)
    → get_prop (set_prop ps k v) j ≡ (if k == j then v else get_prop ps j)
unfolding set_prop
get_prop-set_prop empty k j v = refl
get_prop-set_prop (prop i w ps) k j v =
    ground (arith, eq_iff k j, eq_iff i k, eq_iff i j, get_prop-set_prop ps k j v)

pub get_prop_of_has_key :
    (ps : Props) (k : String) → has_key ps k ≡ false → get_prop ps k ≡ undefined
get_prop_of_has_key empty k h = refl
get_prop_of_has_key (prop j v ps) k h = ground (arith, get_prop_of_has_key ps k)

-- `Object.keys(object).length !== 0`
abbrev pub has_keys : Props → Bool
has_keys empty = false
has_keys (prop k v ps) = true

-- The loop that deletes the properties whose value is undefined.
unfoldable pub delete_undefined : Props → Props
delete_undefined empty = empty
delete_undefined (prop k v ps) =
    if is_undefined v then delete_undefined ps else prop k v (delete_undefined ps)

-- No property of an object is undefined.
abbrev pub IsDefined : Props → Type 0
IsDefined empty = Unit
IsDefined (prop k v ps) = (v ≢ undefined) × IsDefined ps

pub delete_undefined-IsDefined : (ps : Props) → IsDefined (delete_undefined ps)
unfolding delete_undefined
delete_undefined-IsDefined empty = tt
delete_undefined-IsDefined (prop k v ps) = ground (arith, delete_undefined-IsDefined ps)

pub get_prop-delete_undefined :
    (ps : Props) (k : String)
    → has_distinct_keys ps ≡ true
    → get_prop (delete_undefined ps) k ≡ get_prop ps k
unfolding delete_undefined
get_prop-delete_undefined empty k h = refl
get_prop-delete_undefined (prop j v ps) k h =
    ground (arith, eq_iff j k, get_prop-delete_undefined ps k, get_prop_of_has_key ps k)

-- What an `assign` finds under a key: the later object's value, else the earlier one's.
pub get_prop-assign :
    (ps qs : Props) (k : String)
    → has_distinct_keys qs ≡ true
    → get_prop (assign ps qs) k ≡ (if has_key qs k then get_prop qs k else get_prop ps k)
unfolding assign
get_prop-assign ps empty k h = refl
get_prop-assign ps (prop j v qs) k h =
    ground (arith, eq_iff j k, get_prop-assign (set_prop ps j v) qs k, get_prop-set_prop ps j k v)

has_key-set_prop :
    (ps : Props) (k j : String) (v : Value) → has_key (set_prop ps k v) j ≡ (k == j || has_key ps j)
unfolding set_prop
has_key-set_prop empty k j v = refl
has_key-set_prop (prop i w ps) k j v =
    ground (arith, eq_iff i k, eq_iff i j, has_key-set_prop ps k j v)

set_prop_distinct :
    (ps : Props) (k : String) (v : Value)
    → has_distinct_keys ps ≡ true
    → has_distinct_keys (set_prop ps k v) ≡ true
unfolding set_prop
set_prop_distinct empty k v h = refl
set_prop_distinct (prop i w ps) k v h =
    ground (arith, eq_iff i k, eq_iff k i, set_prop_distinct ps k v, has_key-set_prop ps k i v)

pub assign_distinct :
    (ps qs : Props) → has_distinct_keys ps ≡ true → has_distinct_keys (assign ps qs) ≡ true
unfolding assign
assign_distinct ps empty h = h
assign_distinct ps (prop k v qs) h =
    assign_distinct (set_prop ps k v) qs (set_prop_distinct ps k v h)
