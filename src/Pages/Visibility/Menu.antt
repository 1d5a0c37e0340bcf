-- ===== src/Pages/Visibility/Menu.antt =====
-- What the menu of the visible columns shows after a choice.
use open_task.Common.{
  String, ◌==◌, ◌≡◌, refl, Bool, true, false, ◌&&◌, List, [], ◌∷◌, map, ap, sym, ◌∙◌, if◌then◌else◌,
  Bool-cases, inl, inr,
}
use open_task.Js.Value.{Value, truthy}
use open_task.Pages.Visibility.{Column, Visibility, hide, choose, view_options, on_checked_change}

-- The entry of an id, checked or not.
abbrev set_checked : String → Bool → String × Bool → String × Bool
set_checked id value (i, checked) = (i, if i == id then value else checked)

set_twice :
    (id : String) (a b : Bool) (xs : List (String × Bool))
    → map (set_checked id b) (map (set_checked id a) xs) ≡ map (set_checked id b) xs
set_twice id a b [] = refl
set_twice id a b ((i, checked) ∷ xs) = elim (Bool-cases (i == id)) [
  | inl e ↦ rw (e, set_twice id a b xs) refl
  | inr e ↦ rw (e, set_twice id a b xs) refl
]

module _ {S : Type 0} (v : Visibility S) where
  toggled_options :
      (c : Column) (columns : List Column) (value : Bool) (s : S)
      → c.can_hide ≡ true
      → view_options v columns (v.toggle_visibility c value s)
        ≡ map (set_checked c.id value) (view_options v columns s)
  unfolding view_options
  toggled_options c [] value s h = refl
  toggled_options c (x ∷ xs) value s h = elim (Bool-cases (x.is_accessor && x.can_hide)) [
    | inl e ↦ rw (e, toggled_options c xs value s h, v.toggled c x value s, h) refl
    | inr e ↦ rw (e, toggled_options c xs value s h) refl
  ]

  -- Hiding a column from its header unchecks it in the menu, and no other; setting it there to a
  -- value then leaves the menu as it is set to that value without having been hidden.
  view_options-hide :
      (c : Column) (columns : List Column) (value : Value) (s : S)
      → c.can_hide ≡ true
      → (view_options v columns (choose v hide c s)
          ≡ map (set_checked c.id false) (view_options v columns s))
        × (view_options v columns (on_checked_change v c value (choose v hide c s))
            ≡ view_options v columns (on_checked_change v c value s))
  unfolding choose on_checked_change
  view_options-hide c columns value s h =
      let hidden = toggled_options c columns false s h in
      (
        hidden,
        toggled_options c columns (truthy value) (v.toggle_visibility c false s) h
            ∙ ap (map (set_checked c.id (truthy value))) hidden
            ∙ set_twice c.id false (truthy value) (view_options v columns s)
            ∙ sym (toggled_options c columns (truthy value) s h),
      )
