-- ===== src/Toast/Steps.antt =====
-- The toasts over time: what a page can do with them, in any order.
pub mod Ending
pub mod Timers
pub mod Validity
use open_task.Common.{
  ℕ, ◌≤◌, String, ◌==◌, ◌≡◌, refl, Bool, true, false, not, ◌||◌, ◌&&◌, Option, none, some, List, [],
  ◌∷◌, ◌++◌, take, map, length, length-take-le, if◌then◌else◌, eqb, All, All-map, arith, eq_iff,
  eq_refl, Bool-cases, inl, inr, ◌⊎◌,
}
use open_task.Js.Value.{
  Value, boolean, Props, empty, prop, assign, get_prop, has_key, get_prop-assign, has_distinct_keys,
}
use open_task.Toast.{
  ToasterToast, Toaster, toast_limit, has, delete, add_to_remove_queue, queue_all, merged, closed,
  closed_for, without, queued, reducer, dispatch, toast, gen_id, update, dismiss, on_open_change,
  expire, render, subscribe, unsubscribe, initial,
}
use open_task.Toast.Reducer.{
  open_of, open_of-closed, is_shown, has-add_to_remove_queue, has-queue_all,
}

-- An update that leaves `open` alone; a timer that runs.
pub data Step : Toaster → Toaster → Type 0 where
  shows : (props : Props) (s : Toaster) → Step s (toast props s).1
  updates :
      (id : String) (props : Props) (s : Toaster)
      → has_key props "open" ≡ false
      → has_distinct_keys props ≡ true
      → Step s (update id props s)
  dismisses : (id : Option String) (s : Toaster) → Step s (dismiss id s)
  changes : (id : String) (is_open : Bool) (s : Toaster) → Step s (on_open_change id is_open s)
  expires : (id : String) (s : Toaster) → has s.timeouts id ≡ true → Step s (expire id s)
  renders : (i : ℕ) (s : Toaster) → Step s (render i s)
  subscribes : (i : ℕ) (s : Toaster) → Step s (subscribe i s)
  unsubscribes : (i : ℕ) (s : Toaster) → Step s (unsubscribe i s)

pub data Reachable : Toaster → Type 0 where
  start : Reachable initial
  step : {s t : Toaster} → Reachable s → Step s t → Reachable t

-- A toast that is open, or whose timer runs.
abbrev pub IsOpenOrLeaving : List String → ToasterToast → Type 0
IsOpenOrLeaving timeouts t = (open_of t ≡ boolean true) ⊎ (has timeouts t.id ≡ true)

-- No id twice, as in every map.
abbrev pub is_distinct : List String → Bool
is_distinct [] = true
is_distinct (x ∷ xs) = not (has xs x) && is_distinct xs

pub record IsValid (s : Toaster) : Type 0 where
  pub limited : length s.toasts ≤ toast_limit
  pub timed : is_distinct s.timeouts ≡ true
  pub leaving : All (IsOpenOrLeaving s.timeouts) s.toasts
