-- ===== src/Js/TextSet.antt =====
-- A set of texts, as the language's `Set` and the class list of an element keep it.
use open_task.Common.{
  String, ◌==◌, ◌≡◌, refl, Bool, true, false, not, ◌&&◌, ◌||◌, List, [], ◌∷◌, if◌then◌else◌, arith,
  eq_iff,
}

-- Whether a text is in the set, by its insertion order.
unfoldable pub has : List String → String → Bool
has [] v = false
has (x ∷ xs) v = if x == v then true else has xs v

-- `set.add(v)`: at the end, if it is not there.
unfoldable pub add : String → List String → List String
add v [] = v ∷ []
add v (x ∷ xs) = if x == v then x ∷ xs else x ∷ add v xs

unfoldable pub delete : String → List String → List String
delete v [] = []
delete v (x ∷ xs) = if x == v then xs else x ∷ delete v xs

-- No text twice.
unfoldable pub is_set : List String → Bool
unfolding has
is_set [] = true
is_set (x ∷ xs) = not (has xs x) && is_set xs

pub has-add : (v k : String) (xs : List String) → has (add v xs) k ≡ (v == k || has xs k)
unfolding has add
has-add v k [] = ground arith
has-add v k (x ∷ xs) = ground (arith, eq_iff x v, eq_iff v k, eq_iff x k, has-add v k xs)

pub is_set-add : (v : String) (xs : List String) → is_set xs ≡ true → is_set (add v xs) ≡ true
unfolding add has is_set
is_set-add v [] h = refl
is_set-add v (x ∷ xs) h = ground (arith, eq_iff x v, eq_iff v x, is_set-add v xs, has-add v x xs)

pub has-delete :
    (v k : String) (xs : List String)
    → is_set xs ≡ true
    → has (delete v xs) k ≡ (not (v == k) && has xs k)
unfolding has delete is_set
has-delete v k [] h = ground arith
has-delete v k (x ∷ xs) h = ground (arith, eq_iff x v, eq_iff v k, eq_iff x k, has-delete v k xs)

pub is_set-delete : (v : String) (xs : List String) → is_set xs ≡ true → is_set (delete v xs) ≡ true
unfolding delete has is_set
is_set-delete v [] h = refl
is_set-delete v (x ∷ xs) h =
    ground (arith, eq_iff x v, eq_iff v x, is_set-delete v xs, has-delete v x xs)
