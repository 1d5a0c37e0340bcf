-- ===== src/Pages/Paging.antt =====
-- The buttons that turn the pages of a table:
-- ui/vite-opentask/src/components/date-table/data-table-pagination.tsx. The table is the record `Table`.
pub mod Clicks
use open_task.Common.{
  ℕ, ◌+◌, ◌-◌, ◌<◌, ◌≤◌, ◌≡◌, ◌*◌, Bool, true, false, not, List, [], ◌∷◌, ltb, if◌then◌else◌,
}

-- The table of the table library, as documented, over its states: the index of the page never leaves
-- the pages when it is set to one of them, the operations on the page leave the number of pages, and
-- there is a previous or a next page by the index.
pub record Table (S : Type 0) : Type 0 where
  pub page_index : S → ℕ
  pub page_size : S → ℕ
  pub page_count : S → ℕ
  pub can_previous_page : S → Bool
  pub can_next_page : S → Bool
  pub set_page_index : ℕ → S → S
  pub previous_page : S → S
  pub next_page : S → S
  pub set_page_size : ℕ → S → S
  pub can_previous : (s : S) → can_previous_page s ≡ ltb 0 (page_index s)
  pub can_next : (s : S) → can_next_page s ≡ ltb (page_index s + 1) (page_count s)
  pub index_set : (i : ℕ) (s : S) → i < page_count s → page_index (set_page_index i s) ≡ i
  pub count_set : (i : ℕ) (s : S) → page_count (set_page_index i s) ≡ page_count s
  pub previous_is : (s : S) → previous_page s ≡ set_page_index (page_index s - 1) s
  pub next_is : (s : S) → next_page s ≡ set_page_index (page_index s + 1) s

pub data Button : Type 0 where
  first previous next last : Button

module _ {S : Type 0} (t : Table S) where
  unfoldable pub is_disabled : Button → S → Bool
  is_disabled first s = not (t.can_previous_page s)
  is_disabled previous s = not (t.can_previous_page s)
  is_disabled next s = not (t.can_next_page s)
  is_disabled last s = not (t.can_next_page s)

  unfoldable pub pressed : Button → S → S
  pressed first s = t.set_page_index 0 s
  pressed previous s = t.previous_page s
  pressed next s = t.next_page s
  pressed last s = t.set_page_index (t.page_count s - 1) s

  -- A click, which does nothing while the button is disabled.
  unfoldable pub click : Button → S → S
  unfolding is_disabled pressed
  click b s = if is_disabled b s then s else pressed b s

  -- The number of the page that is shown.
  unfoldable pub shown_page : S → ℕ
  shown_page s = t.page_index s + 1

  -- The choice of a page size.
  unfoldable pub choose_size : ℕ → S → S
  choose_size n s = t.set_page_size n s

-- The page sizes to choose from.
abbrev pub page_sizes : List ℕ
page_sizes = 10 ∷ 20 ∷ 30 ∷ 40 ∷ 50 ∷ []
