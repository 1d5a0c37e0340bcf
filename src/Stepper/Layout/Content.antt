-- ===== src/Stepper/Layout/Content.antt =====
-- Which steps are done, which one is current, and which content a horizontal stepper shows.
use open_task.Common.{
  ℕ, zero, suc, ◌+◌, ◌<◌, ◌≡◌, refl, Option, none, some, List, [], ◌∷◌, length, get_elem?, arith,
  if◌then◌else◌, ◌∙◌, ap, subst,
}
use open_task.Common.Int.{ℤ, pos, negsuc}
use open_task.Stepper.Layout.{
  StepProps, PlacedStep, placed_at, placed_from, vertical_content, horizontal_content,
}

get_elem?_past : {A : Type 0} (xs : List A) (i : ℕ) → length xs < i → get_elem? xs i ≡ none
get_elem?_past [] i h = refl
get_elem?_past (x ∷ xs) zero h = absurd (omega arith)
get_elem?_past (x ∷ xs) (suc i) h = get_elem?_past xs i (omega arith)

module _ {Icon Handler Node : Type 0} where
  -- What stands at an index, placed.
  abbrev placed :
      ℤ → ℕ → ℕ → Option (StepProps Icon Handler Node) → Option (PlacedStep Icon Handler Node)
  placed active count i none = none
  placed active count i (some props) = some (placed_at active count i props)

  abbrev pub content_of : Option (PlacedStep Icon Handler Node) → Option Node
  content_of none = none
  content_of (some s) = some s.props.children

  get_elem?-placed_from :
      (active : ℤ) (count start i : ℕ) (children : List (StepProps Icon Handler Node))
      → get_elem? (placed_from active count start children) i
        ≡ placed active count (start + i) (get_elem? children i)
  unfolding placed_from
  get_elem?-placed_from active count start i [] = refl
  get_elem?-placed_from active count start zero (p ∷ rest) =
      ap (λ k. some (placed_at active count k p)) (omega arith)
  get_elem?-placed_from active count start (suc i) (p ∷ rest) =
      get_elem?-placed_from active count (suc start) i rest
      ∙ ap (λ k. placed active count k (get_elem? rest i)) (omega arith)

  -- The first current step.
  pub current : List (PlacedStep Icon Handler Node) → Option (PlacedStep Icon Handler Node)
  current [] = none
  current (s ∷ rest) = let later = current rest in if s.is_current_step then some s else later

  current-placed_from :
      (count start i : ℕ) (children : List (StepProps Icon Handler Node))
      → current (placed_from (pos (start + i)) count start children)
        ≡ placed (pos (start + i)) count (start + i) (get_elem? children i)
  unfolding current placed_from placed_at
  current-placed_from count start i [] = refl
  current-placed_from count start zero (p ∷ rest) =
      let here : start + 0 ≡ start = omega arith in rw here (ground arith)
  current-placed_from count start (suc i) (p ∷ rest) =
      let there : suc start + i ≡ start + suc i = omega arith in
      let later =
        subst
          (λ k.
            current (placed_from (pos k) count (suc start) rest)
            ≡ placed (pos k) count k (get_elem? rest i))
          there (current-placed_from count (suc start) i rest) in
      ground (arith, later)

  current-placed_before :
      (k count start : ℕ) (children : List (StepProps Icon Handler Node))
      → current (placed_from (negsuc k) count start children) ≡ none
  unfolding current placed_from placed_at
  current-placed_before k count start [] = refl
  current-placed_before k count start (p ∷ rest) =
      ground (arith, current-placed_before k count (suc start) rest)

  -- Whatever the active step is, below, among or past the steps, the content that a horizontal
  -- stepper shows is that of the first step which VerticalContent marks as current, and there is
  -- none if there is no such step.
  pub horizontal_content-current :
      (active : ℤ) (children : List (StepProps Icon Handler Node))
      → horizontal_content active children ≡ content_of (current (vertical_content active children))
  unfolding horizontal_content vertical_content
  horizontal_content-current (negsuc k) children =
      ground (arith, current-placed_before k (length children) 0 children)
  horizontal_content-current (pos i) children =
      ground (arith, current-placed_from (length children) 0 i children, get_elem?_past children i)
