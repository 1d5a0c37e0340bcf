-- ===== src/Toast/Steps/Timers.antt =====
-- The map of the timers.
use open_task.Common.{
  String, ◌==◌, ◌≡◌, refl, true, false, not, ◌&&◌, Option, none, some, List, [], ◌∷◌, ◌++◌, arith,
  eq_iff, Bool-cases, inl, inr,
}
use open_task.Toast.{ToasterToast, Toaster, has, delete, add_to_remove_queue, queue_all, queued}
use open_task.Toast.Reducer.{has-append, has-add_to_remove_queue, has-queue_all}
use open_task.Toast.Steps.{is_distinct}

append-is_distinct :
    (xs : List String) (x : String)
    → is_distinct xs ≡ true
    → has xs x ≡ false
    → is_distinct (xs ++ (x ∷ [])) ≡ true
append-is_distinct [] x h k = refl
append-is_distinct (y ∷ xs) x h k =
    ground (arith, append-is_distinct xs x, has-append xs x y, eq_iff x y, eq_iff y x)

add_to_remove_queue-is_distinct :
    (xs : List String) (x : String)
    → is_distinct xs ≡ true
    → is_distinct (add_to_remove_queue xs x) ≡ true
unfolding add_to_remove_queue
add_to_remove_queue-is_distinct xs x h = elim (Bool-cases (has xs x)) [
  | inl e ↦ rw e h
  | inr e ↦ rw e (append-is_distinct xs x h e)
]

queue_all-is_distinct :
    (xs : List String) (ts : List ToasterToast)
    → is_distinct xs ≡ true
    → is_distinct (queue_all xs ts) ≡ true
unfolding queue_all
queue_all-is_distinct xs [] h = h
queue_all-is_distinct xs (t ∷ ts) h =
    queue_all-is_distinct (add_to_remove_queue xs t.id) ts
      (add_to_remove_queue-is_distinct xs t.id h)

pub queued-is_distinct :
    (s : Toaster) (o : Option String)
    → is_distinct s.timeouts ≡ true
    → is_distinct (queued s o) ≡ true
unfolding queued
queued-is_distinct s none h = queue_all-is_distinct s.timeouts s.toasts h
queued-is_distinct s (some id) h = elim (Bool-cases (id == "")) [
  | inl e ↦ rw e (queue_all-is_distinct s.timeouts s.toasts h)
  | inr e ↦ rw e (add_to_remove_queue-is_distinct s.timeouts id h)
]

pub has-delete :
    (xs : List String) (id j : String)
    → is_distinct xs ≡ true
    → has (delete xs id) j ≡ (has xs j && not (id == j))
unfolding delete
has-delete [] id j h = refl
has-delete (x ∷ xs) id j h =
    ground (arith, has-delete xs id j, eq_iff x id, eq_iff x j, eq_iff id j)

pub delete-is_distinct :
    (xs : List String) (id : String) → is_distinct xs ≡ true → is_distinct (delete xs id) ≡ true
unfolding delete
delete-is_distinct [] id h = refl
delete-is_distinct (x ∷ xs) id h =
    ground (arith, delete-is_distinct xs id, has-delete xs id x, eq_iff x id)

-- Timers that run go on.
pub has-queued :
    (s : Toaster) (o : Option String) (j : String)
    → has s.timeouts j ≡ true
    → has (queued s o) j ≡ true
unfolding queued
has-queued s none j h = ground (arith, has-queue_all s.timeouts s.toasts j)
has-queued s (some id) j h =
    ground (arith, has-queue_all s.timeouts s.toasts j, has-add_to_remove_queue s.timeouts id j)
