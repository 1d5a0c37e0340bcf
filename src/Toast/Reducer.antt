-- ===== src/Toast/Reducer.antt =====
-- What the operations on the toasts leave.
use open_task.Common.{
  ℕ, String, ◌==◌, ◌≡◌, refl, Bool, true, false, not, ◌||◌, ◌&&◌, none, some, List, [], ◌∷◌, ◌++◌,
  map, if◌then◌else◌, arith, eq_iff, Bool-cases, inl, inr,
}
use open_task.Js.Value.{Value, boolean, empty, prop, get_prop, get_prop-assign}
use open_task.Toast.{
  ToasterToast, Toaster, has, add_to_remove_queue, queue_all, closed, without, queued, reducer,
  dispatch, dismiss, expire, is_listener, Action, add_toast, update_toast, dismiss_toast,
  remove_toast,
}

-- The property `open`.
abbrev pub open_of : ToasterToast → Value
open_of t = get_prop t.props "open"

abbrev pub is_shown : List ToasterToast → String → Bool
is_shown [] id = false
is_shown (t ∷ ts) id = t.id == id || is_shown ts id

pub open_of-closed : (t : ToasterToast) → open_of (closed t) ≡ boolean false
open_of-closed t = get_prop-assign t.props (prop "open" (boolean false) empty) "open" refl

pub has-append :
    (xs : List String) (x id : String) → has (xs ++ (x ∷ [])) id ≡ (has xs id || x == id)
has-append [] x id = ground arith
has-append (y ∷ xs) x id = ground (arith, has-append xs x id)

-- A toast that is queued has a timer, and the timers of the others stay.
pub has-add_to_remove_queue :
    (xs : List String) (x id : String) → has (add_to_remove_queue xs x) id ≡ (has xs id || x == id)
unfolding add_to_remove_queue
has-add_to_remove_queue xs x id = elim (Bool-cases (has xs x)) [
  | inl e ↦ rw e (ground (arith, eq_iff x id))
  | inr e ↦ rw e (has-append xs x id)
]

pub has-queue_all :
    (xs : List String) (ts : List ToasterToast) (id : String)
    → has (queue_all xs ts) id ≡ (has xs id || is_shown ts id)
unfolding queue_all
has-queue_all xs [] id = ground arith
has-queue_all xs (t ∷ ts) id =
    ground
      (arith, has-queue_all (add_to_remove_queue xs t.id) ts id, has-add_to_remove_queue xs t.id id)

map_agree :
    {f g : ToasterToast → ToasterToast} (ts : List ToasterToast)
    → ((t : ToasterToast) → f t ≡ g t)
    → map f ts ≡ map g ts
map_agree [] h = refl
map_agree (t ∷ ts) h = rw (h t, map_agree ts h)

-- Dismissing an id that is not the empty text closes the toasts with that id and leaves the others
-- as they were; a timer runs for an id afterwards exactly if one ran before or it is the id
-- dismissed.
dismiss_one :
    (s : Toaster) (id : String)
    → (id == "") ≡ false
    → ((dismiss (some id) s).toasts ≡ map (λ t. if t.id == id then closed t else t) s.toasts)
      × ((j : String) → has (dismiss (some id) s).timeouts j ≡ (has s.timeouts j || id == j))
unfolding dismiss dispatch reducer queued
dismiss_one s id real = (refl, λ j. rw real (has-add_to_remove_queue s.timeouts id j))

-- Dismissing without an id closes every toast; a timer runs for an id afterwards exactly if one ran
-- before or a toast on the page has the id.
pub dismiss_every :
    (s : Toaster)
    → ((dismiss none s).toasts ≡ map closed s.toasts)
      × ((j : String) → has (dismiss none s).timeouts j ≡ (has s.timeouts j || is_shown s.toasts j))
unfolding dismiss dispatch reducer queued
dismiss_every s = (map_agree s.toasts (λ t. refl), λ j. has-queue_all s.timeouts s.toasts j)

is_shown-without :
    (ts : List ToasterToast) (id j : String)
    → is_shown (without id ts) j ≡ (is_shown ts j && not (id == j))
is_shown-without [] id j = refl
is_shown-without (t ∷ ts) id j =
    ground (arith, is_shown-without ts id j, eq_iff t.id id, eq_iff t.id j, eq_iff id j)

-- After the timer of an id ends, a toast with some id is on the page exactly if one was before and
-- the ids differ.
pub expire_lem :
    (s : Toaster) (id j : String)
    → is_shown (expire id s).toasts j ≡ (is_shown s.toasts j && not (id == j))
unfolding expire dispatch reducer
expire_lem s id j = is_shown-without s.toasts id j

reducer-listeners : (s : Toaster) (a : Action) → (reducer s a).listeners ≡ s.listeners
unfolding reducer
reducer-listeners s (add_toast t) = refl
reducer-listeners s (update_toast t) = refl
reducer-listeners s (dismiss_toast o) = refl
reducer-listeners s (remove_toast none) = refl
reducer-listeners s (remove_toast (some id)) = refl

-- After any dispatch, each listener has been given the toasts that there are.
pub dispatch-shown :
    (s : Toaster) (a : Action) (i : ℕ)
    → is_listener s.listeners i ≡ true
    → (dispatch s a).shown i ≡ (dispatch s a).toasts
unfolding dispatch reducer
dispatch-shown s a i h = rw (reducer-listeners s a, h)
