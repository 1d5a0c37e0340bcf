-- ===== src/Pages/Filter/Selection.antt =====
-- The filter's value as the set of what is selected.
use mathlib.Core.Quot
use mathlib.Core.Quot.{Quot, Quot-set}
use mathlib.Core.Path.{fun_ext}
use open_task.Common.{
  String, ◌==◌, ◌≡◌, refl, sym, ◌∙◌, Bool, true, false, not, ◌||◌, Option, none, some, List, [],
  ◌∷◌, ◌≢◌, if◌then◌else◌, arith, eq_iff, Bool-cases, inl, inr,
}
use open_task.Js.TextSet.{has, add, delete, is_set, is_set-add, has-add, is_set-delete, has-delete}
use open_task.Pages.Filter.{add_all, selected_values, filter_value, on_select, clear}

is_set-add_all : (set vs : List String) → is_set set ≡ true → is_set (add_all set vs) ≡ true
unfolding add_all
is_set-add_all set [] h = h
is_set-add_all set (v ∷ vs) h = is_set-add_all (add v set) vs (is_set-add v set h)

pub selected_values-is_set : (f : Option (List String)) → is_set (selected_values f) ≡ true
unfolding selected_values is_set
selected_values-is_set none = refl
selected_values-is_set (some vs) = is_set-add_all [] vs refl

has-add_all : (k : String) (set vs : List String) → has (add_all set vs) k ≡ (has set k || has vs k)
unfolding add_all has
has-add_all k set [] = ground arith
has-add_all k set (v ∷ vs) = ground (arith, has-add_all k (add v set) vs, has-add v k set)

has-selected_values :
    (k : String) (vs : List String) → has (selected_values (filter_value vs)) k ≡ has vs k
unfolding selected_values filter_value has
has-selected_values k [] = refl
has-selected_values k (v ∷ vs) = has-add_all k [] (v ∷ vs)

-- The abstract filter: which values are selected.
abbrev pub Selected : Type 0
Selected = String → Bool

abbrev pub selected : Option (List String) → Selected
unfolding has selected_values
selected filter k = has (selected_values filter) k

-- Its operations: a value changes sides, and nothing is selected.
abbrev pub flip : String → Selected → Selected
flip value s k = if value == k then not (s k) else s k

selected-on_select_at :
    (value : String) (f : Option (List String)) (k : String)
    → selected (on_select value f) k ≡ flip value (selected f) k
unfolding on_select selected
selected-on_select_at value f k =
    let xs = selected_values f in
    elim (Bool-cases (has xs value)) [
      | inl there ↦ rw there (
          has-selected_values k (delete value xs)
          ∙ ground (arith, there, eq_iff value k, has-delete value k xs (selected_values-is_set f)))
      | inr other ↦ rw other (
          has-selected_values k (add value xs)
          ∙ ground (arith, other, eq_iff value k, has-add value k xs))
    ]

-- The filter's value has no text twice, and is undefined rather than empty.
abbrev pub IsProper : Option (List String) → Type 0
unfolding is_set
IsProper none = Unit
IsProper (some vs) = (is_set vs ≡ true) × (vs ≢ [])

filter_value-IsProper : (vs : List String) → is_set vs ≡ true → IsProper (filter_value vs)
unfolding filter_value IsProper
filter_value-IsProper [] h = tt
filter_value-IsProper (v ∷ vs) h = (h, λ e. cc)

on_select-IsProper : (value : String) (f : Option (List String)) → IsProper (on_select value f)
unfolding on_select
on_select-IsProper value f =
    let xs = selected_values f in
    let set = selected_values-is_set f in
    elim (Bool-cases (has xs value)) [
      | inl there ↦ rw there (filter_value-IsProper (delete value xs) (is_set-delete value xs set))
      | inr other ↦ rw other (filter_value-IsProper (add value xs) (is_set-add value xs set))
    ]

-- A click of an option of a column's filter changes the side of its value, and of no other, in the
-- set of the selected values, whatever value the filter has; clearing selects nothing; and the value
-- after a click has no text twice and is undefined rather than empty.
pub on_select-refines :
    (value : String) (f : Option (List String))
    → (selected (on_select value f) ≡ flip value (selected f))
      × (selected (clear f) ≡ (λ k. false))
      × IsProper (on_select value f)
unfolding clear has selected_values selected
on_select-refines value f =
    (fun_ext (selected-on_select_at value f), refl, on_select-IsProper value f)

-- Two values of the filter select the same.
abbrev pub SelectsSame : Option (List String) → Option (List String) → Type 0
SelectsSame f g = (k : String) → selected f k ≡ selected g k

on_select-SelectsSame :
    (value : String) (f g : Option (List String))
    → SelectsSame f g
    → SelectsSame (on_select value f) (on_select value g)
on_select-SelectsSame value f g h k =
    selected-on_select_at value f k ∙ (ground (arith, h k) ∙ sym (selected-on_select_at value g k))

-- The filter without the order of the clicks, and a click on it.
abbrev pub Selection : Type 0
Selection = Quot SelectsSame

pub select : String → Selection → Selection
select value =
    Quot.lift Quot-set (λ f. Quot.mk (on_select value f))
      (λ f g h. Quot.sound (on_select-SelectsSame value f g h))

flip_twice :
    (value : String) (f : Option (List String)) (k : String)
    → selected (on_select value (on_select value f)) k ≡ selected f k
flip_twice value f k =
    selected-on_select_at value (on_select value f) k
    ∙ ground (arith, selected-on_select_at value f k)

flip_comm :
    (v u : String) (f : Option (List String)) (k : String)
    → selected (on_select v (on_select u f)) k ≡ selected (on_select u (on_select v f)) k
flip_comm v u f k =
    selected-on_select_at v (on_select u f) k
    ∙ (ground (arith, selected-on_select_at u f k, selected-on_select_at v f k)
        ∙ sym (selected-on_select_at u (on_select v f) k))

select_twice : (v : String) (s : Selection) → select v (select v s) ≡ s
unfolding select
select_twice v = Quot.ind (λ q. Quot-set _ _) (λ f. Quot.sound (flip_twice v f))

select_comm : (v u : String) (s : Selection) → select v (select u s) ≡ select u (select v s)
unfolding select
select_comm v u = Quot.ind (λ q. Quot-set _ _) (λ f. Quot.sound (flip_comm v u f))

-- Up to the order in which the values were chosen, a second click of an option takes the first one
-- back, and clicks of two options commute.
pub select_laws :
    (v u : String) (s : Selection)
    → (select v (select v s) ≡ s) × (select v (select u s) ≡ select u (select v s))
select_laws v u s = (select_twice v s, select_comm v u s)
