-- ===== src/Pages/Paging/Clicks.antt =====
-- Where the buttons lead.
use open_task.Common.{
  ℕ, ◌+◌, ◌-◌, ◌<◌, ◌≤◌, ◌≡◌, refl, ltb, if◌then◌else◌, arith, List, [], ◌∷◌, ◌∙◌,
}
use open_task.Pages.Paging.{
  Table, Button, first, previous, next, last, click, is_disabled, pressed, shown_page,
}

module _ {S : Type 0} (t : Table S) where
  -- The index that a click leads to, from an index among so many pages.
  pub target : Button → ℕ → ℕ → ℕ
  target first i n = 0
  target previous i n = i - 1
  target next i n = if ltb (i + 1) n then i + 1 else i
  target last i n = n - 1

  pub click_lem :
      (b : Button) (s : S)
      → t.page_index s < t.page_count s
      → (t.page_index (click t b s) ≡ target b (t.page_index s) (t.page_count s))
        × (t.page_count (click t b s) ≡ t.page_count s)
  unfolding click is_disabled pressed target
  click_lem first s h = ground (arith, t.can_previous s, t.index_set 0 s, t.count_set 0 s)
  click_lem previous s h =
      let i = t.page_index s - 1 in
      ground (arith, t.can_previous s, t.previous_is s, t.index_set i s, t.count_set i s)
  click_lem next s h =
      let i = t.page_index s + 1 in
      ground (arith, t.can_next s, t.next_is s, t.index_set i s, t.count_set i s)
  click_lem last s h =
      let i = t.page_count s - 1 in ground (arith, t.can_next s, t.index_set i s, t.count_set i s)

  -- The clicks of a list of buttons, in order.
  pub clicks : List Button → S → S
  clicks [] s = s
  clicks (b ∷ bs) s = clicks bs (click t b s)

  target_bounds : (b : Button) (i n : ℕ) → i < n → target b i n < n
  unfolding target
  target_bounds first i n h = omega arith
  target_bounds previous i n h = omega arith
  target_bounds next i n h = ground arith
  target_bounds last i n h = omega arith

  -- From a page among those of a table, any clicks of the buttons for the first, the previous, the
  -- next and the last page lead to a page among them: the number that is shown is at least 1 and at
  -- most the number of pages, which stays the same.
  pub clicks_bounds :
      (bs : List Button) (s : S)
      → t.page_index s < t.page_count s
      → (1 ≤ shown_page t (clicks bs s))
        × (shown_page t (clicks bs s) ≤ t.page_count s)
        × (t.page_count (clicks bs s) ≡ t.page_count s)
  unfolding clicks shown_page
  clicks_bounds [] s h = (omega arith, omega arith, refl)
  clicks_bounds (b ∷ bs) s h =
      let step = click_lem b s h in
      let bound = target_bounds b (t.page_index s) (t.page_count s) h in
      let rest = clicks_bounds bs (click t b s) (omega (arith, step.0, step.1, bound)) in
      (rest.0, omega (arith, rest.1, step.1), rest.2 ∙ step.1)
