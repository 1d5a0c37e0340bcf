-- ===== src/Pages/Visibility.antt =====
-- The headers of a table's columns and the menu of those that are visible:
-- data-table-column-header.tsx and data-table-view-options.tsx of
-- ui/vite-opentask/src/components/date-table. The columns are the table library's.
pub mod Menu
use open_task.Common.{String, ◌==◌, ◌≡◌, Bool, true, false, not, ◌&&◌, List, [], ◌∷◌, if◌then◌else◌}
use open_task.Js.Value.{Value, truthy}

-- A column; `is_accessor` says that its `accessorFn` is not undefined.
pub record Column : Type 0 where
  pub id : String
  pub is_accessor : Bool
  pub can_hide : Bool
  pub can_sort : Bool

-- `getIsSorted`
pub data Sorted : Type 0 where
  unsorted ascending descending : Sorted

-- The state of the table library, as documented: a column that can be hidden gets the visibility
-- that is asked for, and the others keep theirs.
pub record Visibility (S : Type 0) : Type 0 where
  pub is_visible : Column → S → Bool
  pub toggle_visibility : Column → Bool → S → S
  pub is_sorted : Column → S → Sorted
  pub toggle_sorting : Column → Bool → S → S
  pub toggled :
      (c other : Column) (value : Bool) (s : S)
      → is_visible other (toggle_visibility c value s)
        ≡ (if c.can_hide && (other.id == c.id) then value else is_visible other s)

pub data Icon : Type 0 where
  arrow_down arrow_up caret_sort : Icon

-- The title alone, or with a menu and the icon of the sorting.
pub data HeaderView : Type 0 where
  title_only : String → HeaderView
  with_menu : String → Icon → HeaderView

-- The items of the menu.
pub data MenuItem : Type 0 where
  sort_ascending sort_descending hide : MenuItem

abbrev pub sort_icon : Sorted → Icon
sort_icon descending = arrow_down
sort_icon ascending = arrow_up
sort_icon unsorted = caret_sort

module _ {S : Type 0} (v : Visibility S) where
  -- `DataTableColumnHeader`
  unfoldable pub column_header : Column → String → S → HeaderView
  column_header column title s =
      if not column.can_sort
      then title_only title
      else with_menu title (sort_icon (v.is_sorted column s))

  unfoldable pub choose : MenuItem → Column → S → S
  choose sort_ascending column s = v.toggle_sorting column false s
  choose sort_descending column s = v.toggle_sorting column true s
  choose hide column s = v.toggle_visibility column false s

  -- `DataTableViewOptions`: the ids of the columns that can be chosen, and whether they are checked.
  unfoldable pub view_options : List Column → S → List (String × Bool)
  view_options [] s = []
  view_options (column ∷ columns) s =
      if column.is_accessor && column.can_hide
      then (column.id, v.is_visible column s) ∷ view_options columns s
      else view_options columns s

  unfoldable pub on_checked_change : Column → Value → S → S
  on_checked_change column value s = v.toggle_visibility column (truthy value) s
