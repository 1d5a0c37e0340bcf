-- ===== src/Toast/Steps/Ending.antt =====
-- The timers end, in any order.
use open_task.Common.{
  ◌+◌, String, ◌==◌, ◌≡◌, refl, true, none, List, [], ◌∷◌, length, All, All-map, arith, eq_iff,
  eq_refl, Bool-cases, inl, inr,
}
use open_task.Toast.{
  ToasterToast, Toaster, has, delete, closed, without, queued, reducer, dispatch, dismiss, expire,
}
use open_task.Toast.Reducer.{is_shown, has-queue_all}
use open_task.Toast.Steps.{Reachable, is_distinct, IsValid}
use open_task.Toast.Steps.Timers.{has-delete, delete-is_distinct}
use open_task.Toast.Steps.Validity.{All-of_map, shown_own, Reachable-IsValid, dismiss-IsValid}

-- The timers of the ids end, one after another, each while it runs.
pub data Ends : List String → Toaster → Toaster → Type 0 where
  none_ends : (s : Toaster) → Ends [] s s
  ends :
      (id : String) {ids : List String} (s : Toaster) {t : Toaster}
      → has s.timeouts id ≡ true
      → Ends ids (expire id s) t
      → Ends (id ∷ ids) s t

-- Every toast is about to leave, and no timer runs twice.
IsEnding : Toaster → Type 0
IsEnding s = (is_distinct s.timeouts ≡ true) × All (λ t. has s.timeouts t.id ≡ true) s.toasts

length-delete :
    (xs : List String) (id : String) → has xs id ≡ true → length (delete xs id) + 1 ≡ length xs
unfolding delete
length-delete [] id h = ground (arith, h)
length-delete (x ∷ xs) id h = ground (arith, length-delete xs id)

without_timed :
    (timeouts : List String) (id : String) (ts : List ToasterToast)
    → is_distinct timeouts ≡ true
    → All (λ t. has timeouts t.id ≡ true) ts
    → All (λ t. has (delete timeouts id) t.id ≡ true) (without id ts)
without_timed timeouts id [] d h = tt
without_timed timeouts id (t ∷ ts) d h = elim (Bool-cases (t.id == id)) [
  | inl e ↦ rw e (without_timed timeouts id ts d h.1)
  | inr e ↦ rw e (
    ground (arith, h.0, has-delete timeouts id t.id d, eq_iff id t.id, eq_iff t.id id),
    without_timed timeouts id ts d h.1,
  )
]

expire-IsEnding : (id : String) (s : Toaster) → IsEnding s → IsEnding (expire id s)
unfolding IsEnding expire dispatch reducer
expire-IsEnding id s h =
    (delete-is_distinct s.timeouts id h.0, without_timed s.timeouts id s.toasts h.0 h.1)

-- One timer less.
length-expire :
    (id : String) (s : Toaster)
    → has s.timeouts id ≡ true
    → length ((expire id s).timeouts) + 1 ≡ length s.timeouts
unfolding expire dispatch reducer
length-expire id s h = length-delete s.timeouts id h

Ends-counted :
    {ids : List String} {s t : Toaster}
    → Ends ids s t
    → IsEnding s
    → (length ids + length t.timeouts ≡ length s.timeouts) × IsEnding t
Ends-counted (Ends.none_ends s) h = (omega arith, h)
Ends-counted (Ends.ends id {ids = ids} s {t = t} runs rest) h =
    let after = Ends-counted rest (expire-IsEnding id s h) in
    (omega (arith, after.0, length-expire id s runs), after.1)

delete_first : (x : String) (xs : List String) → delete (x ∷ xs) x ≡ xs
unfolding delete
delete_first x xs = ground (arith, eq_refl x)

-- The first timer can end, and then the others.
all_end :
    (xs : List String) (s : Toaster)
    → s.timeouts ≡ xs
    → (ids : List String) × (t : Toaster) × Ends ids s t × (t.timeouts ≡ [])
unfolding expire dispatch reducer
all_end [] s e = ([], s, Ends.none_ends s, e)
all_end (x ∷ xs) s e =
    let (ids, t, rest, over) = all_end xs (expire x s) (rw e (delete_first x xs)) in
    (x ∷ ids, t, Ends.ends x s (rw e (ground (arith, eq_refl x))) rest, over)

no_toasts :
    (xs : List String) (ts : List ToasterToast)
    → xs ≡ []
    → All (λ t. has xs t.id ≡ true) ts
    → ts ≡ []
no_toasts xs [] e h = refl
no_toasts [] (t ∷ ts) e h = ground (arith, h.0)
no_toasts (x ∷ xs) (t ∷ ts) e h = ground (arith, e)

dismissed-IsEnding : (s : Toaster) → IsValid s → IsEnding (dismiss none s)
unfolding IsEnding dismiss dispatch reducer queued
dismissed-IsEnding s v = (
  (dismiss-IsValid none s v).timed,
  All-of_map (λ t. has (queued s none) t.id ≡ true) closed s.toasts
      (All-map (λ t. is_shown s.toasts t.id ≡ true) (λ t. has (queued s none) t.id ≡ true)
        (λ t h. ground (arith, h, has-queue_all s.timeouts s.toasts t.id)) s.toasts
        (shown_own s.toasts s.toasts (λ j h. h))),
)

-- On a page that any sequence of steps left, after all toasts are dismissed and some timers ended,
-- in any order: those that ended and those that still run are as many as ran at the dismissal, each
-- toast still on the page has a timer that runs, and there is an order in which the timers that are
-- left end, after which no timer and no toast is left.
pub dismissed-Ends :
    {s t : Toaster} {ids : List String}
    → Reachable s
    → Ends ids (dismiss none s) t
    → (length ids + length t.timeouts ≡ length ((dismiss none s).timeouts))
      × All (λ x. has t.timeouts x.id ≡ true) t.toasts
      × ((more : List String) × (u : Toaster) × Ends more t u × (u.timeouts ≡ []) × (u.toasts ≡ []))
unfolding IsEnding
dismissed-Ends {s = s} {t = t} r run =
    let (count, ending) = Ends-counted run (dismissed-IsEnding s (Reachable-IsValid r)) in
    let (more, u, rest, over) = all_end t.timeouts t refl in
    let left = (Ends-counted rest ending).1 in
    (count, ending.1, (more, u, rest, over, no_toasts u.timeouts u.toasts over left.1))
