-- ===== src/Pages/Filter.antt =====
-- The filter by values of a column: `DataTableFacetedFilter` of
-- ui/vite-opentask/src/components/date-table/data-table-faceted-filter.tsx. A click sees the rendering
-- after the one before it.
pub mod Selection
use open_task.Common.{
  ℕ, String, ◌==◌, Bool, true, false, Option, none, some, List, [], ◌∷◌, length, ltb, if◌then◌else◌,
}
use open_task.Js.TextSet.{has, add, delete}

-- An option of the filter; its icon is left out.
pub record FacetOption : Type 0 where
  pub label : String
  pub value : String

add_all : List String → List String → List String
add_all set [] = set
add_all set (v ∷ vs) = add_all (add v set) vs

-- `new Set(column?.getFilterValue())`; the filter's value is undefined without a selection.
unfoldable pub selected_values : Option (List String) → List String
unfolding add_all
selected_values none = []
selected_values (some vs) = add_all [] vs

-- `filterValues.length ? filterValues : undefined`
unfoldable pub filter_value : List String → Option (List String)
filter_value [] = none
filter_value (v ∷ vs) = some (v ∷ vs)

-- `onSelect` of an option: the value that the column's filter is set to.
unfoldable pub on_select : String → Option (List String) → Option (List String)
unfolding has add delete selected_values filter_value
on_select value filter =
    let selected = selected_values filter in
    filter_value (if has selected value then delete value selected else add value selected)

-- `onSelect` of "Clear filters"
unfoldable pub clear : Option (List String) → Option (List String)
clear filter = none

-- What the button of the filter shows beside its title.
pub data Badges : Type 0 where
  no_badges : Badges
  count : ℕ → Badges
  labels : List String → Badges

unfoldable pub selected_labels : List String → List FacetOption → List String
unfolding has
selected_labels selected [] = []
selected_labels selected (option ∷ options) =
    let rest = selected_labels selected options in
    if has selected option.value then option.label ∷ rest else rest

unfoldable pub badges : List FacetOption → Option (List String) → Badges
unfolding selected_values selected_labels
badges options filter =
    let selected = selected_values filter in
    if ltb 0 (length selected)
    then (if ltb 2 (length selected)
        then count (length selected)
        else labels (selected_labels selected options))
    else no_badges

-- The options with a check mark, in order.
unfoldable pub checked : List FacetOption → Option (List String) → List Bool
unfolding has selected_values
checked [] filter = []
checked (option ∷ options) filter =
    has (selected_values filter) option.value ∷ checked options filter
