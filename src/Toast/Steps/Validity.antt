-- ===== src/Toast/Steps/Validity.antt =====
-- The toaster stays valid.
use open_task.Common.{
  ◌≤◌, String, ◌==◌, ◌≡◌, refl, Bool, true, false, Option, none, some, List, [], ◌∷◌, map, length,
  All, All-map, arith, eq_iff, eq_refl, Bool-cases, inl, inr,
}
use open_task.Js.Value.{boolean, Props, empty, prop, has_key, get_prop-assign, has_distinct_keys}
use open_task.Toast.{
  ToasterToast, Toaster, has, delete, merged, closed_for, without, queued, reducer, dispatch, toast,
  gen_id, update, dismiss, on_open_change, expire, render, subscribe, unsubscribe,
}
use open_task.Toast.Reducer.{is_shown, has-add_to_remove_queue, has-queue_all}
use open_task.Toast.Steps.{Step, Reachable, start, step, IsOpenOrLeaving, is_distinct, IsValid}
use open_task.Toast.Steps.Timers.{queued-is_distinct, has-delete, delete-is_distinct, has-queued}

length-map :
    (f : ToasterToast → ToasterToast) (ts : List ToasterToast) → length (map f ts) ≡ length ts
length-map f [] = refl
length-map f (t ∷ ts) = rw (length-map f ts)

length-without-le : (id : String) (ts : List ToasterToast) → length (without id ts) ≤ length ts
length-without-le id [] = omega arith
length-without-le id (t ∷ ts) = ground (arith, length-without-le id ts)

pub All-of_map :
    (P : ToasterToast → Type 0) (f : ToasterToast → ToasterToast) (ts : List ToasterToast)
    → All (λ t. P (f t)) ts
    → All P (map f ts)
All-of_map P f [] h = tt
All-of_map P f (t ∷ ts) h = (h.0, All-of_map P f ts h.1)

-- Every toast on the page is one of those shown.
pub shown_own :
    (all ts : List ToasterToast)
    → ((j : String) → is_shown ts j ≡ true → is_shown all j ≡ true)
    → All (λ t. is_shown all t.id ≡ true) ts
shown_own all [] h = tt
shown_own all (t ∷ ts) h =
    (h t.id (ground (arith, eq_refl t.id)), shown_own all ts (λ j k. h j (ground arith)))

-- The toasts that a dismissal closes.
is_dismissed : Option String → ToasterToast → Bool
is_dismissed none t = true
is_dismissed (some id) t = t.id == id

dismissed_queued :
    (s : Toaster) (o : Option String) (t : ToasterToast)
    → is_shown s.toasts t.id ≡ true
    → is_dismissed o t ≡ true
    → has (queued s o) t.id ≡ true
unfolding queued is_dismissed
dismissed_queued s none t shown h = ground (arith, has-queue_all s.timeouts s.toasts t.id)
dismissed_queued s (some id) t shown h = ground (
  arith,
  has-queue_all s.timeouts s.toasts t.id,
  has-add_to_remove_queue s.timeouts id t.id,
  eq_iff t.id id,
  eq_iff id t.id,
)

dismissed_leaving :
    (s : Toaster) (o : Option String) (t : ToasterToast)
    → is_shown s.toasts t.id ≡ true
    → IsOpenOrLeaving s.timeouts t
    → IsOpenOrLeaving (queued s o) (closed_for o t)
unfolding is_dismissed
dismissed_leaving s none t shown h = inr (dismissed_queued s none t shown refl)
dismissed_leaving s (some id) t shown h = elim (Bool-cases (t.id == id)) [
  | inl e ↦ rw e (inr (dismissed_queued s (some id) t shown e))
  | inr e ↦ rw e (elim h [ inl p ↦ inl p | inr p ↦ inr (has-queued s (some id) t.id p) ])
]

merged_leaving :
    (timeouts : List String) (u t : ToasterToast)
    → has_key u.props "open" ≡ false
    → has_distinct_keys u.props ≡ true
    → IsOpenOrLeaving timeouts t
    → IsOpenOrLeaving timeouts (merged u t)
merged_leaving timeouts u t kept distinct h = elim (Bool-cases (t.id == u.id)) [
  | inl e ↦ rw e (elim h [
    | inl p ↦ inl (rw (get_prop-assign t.props u.props "open" distinct, kept) p)
    | inr p ↦ inr p
  ])
  | inr e ↦ rw e h
]

update-IsValid :
    (id : String) (props : Props) (s : Toaster)
    → has_key props "open" ≡ false
    → has_distinct_keys props ≡ true
    → IsValid s
    → IsValid (update id props s)
unfolding update dispatch reducer
update-IsValid id props s kept distinct v =
    let u : ToasterToast = record { id = id; props = props } in
    record {
      limited = rw (length-map (merged u) s.toasts) v.limited;
      timed = v.timed;
      leaving = All-of_map (IsOpenOrLeaving s.timeouts) (merged u) s.toasts (
          All-map (IsOpenOrLeaving s.timeouts) (λ t. IsOpenOrLeaving s.timeouts (merged u t))
            (λ t. merged_leaving s.timeouts u t kept distinct) s.toasts v.leaving);
    }

both :
    (P Q : ToasterToast → Type 0) (ts : List ToasterToast)
    → All P ts
    → All Q ts
    → All (λ t. P t × Q t) ts
both P Q [] h k = tt
both P Q (t ∷ ts) h k = ((h.0, k.0), both P Q ts h.1 k.1)

pub dismiss-IsValid : (o : Option String) (s : Toaster) → IsValid s → IsValid (dismiss o s)
unfolding dismiss dispatch reducer
dismiss-IsValid o s v =
    let shown = shown_own s.toasts s.toasts (λ j h. h) in
    record {
      limited = rw (length-map (closed_for o) s.toasts) v.limited;
      timed = queued-is_distinct s o v.timed;
      leaving = All-of_map (IsOpenOrLeaving (queued s o)) (closed_for o) s.toasts (
          All-map (λ t. (is_shown s.toasts t.id ≡ true) × IsOpenOrLeaving s.timeouts t)
            (λ t. IsOpenOrLeaving (queued s o) (closed_for o t))
            (λ t h. dismissed_leaving s o t h.0 h.1) s.toasts
            (both (λ t. is_shown s.toasts t.id ≡ true) (IsOpenOrLeaving s.timeouts) s.toasts shown
              v.leaving));
    }

without_leaving :
    (timeouts : List String) (id : String) (ts : List ToasterToast)
    → is_distinct timeouts ≡ true
    → All (IsOpenOrLeaving timeouts) ts
    → All (IsOpenOrLeaving (delete timeouts id)) (without id ts)
without_leaving timeouts id [] d h = tt
without_leaving timeouts id (t ∷ ts) d h = elim (Bool-cases (t.id == id)) [
  | inl e ↦ rw e (without_leaving timeouts id ts d h.1)
  | inr e ↦ rw e (
    elim (h.0) [
      | inl p ↦ inl p
      | inr p ↦ inr (ground (arith, has-delete timeouts id t.id d, eq_iff id t.id, eq_iff t.id id))
    ],
    without_leaving timeouts id ts d h.1,
  )
]

expire-IsValid : (id : String) (s : Toaster) → IsValid s → IsValid (expire id s)
unfolding expire dispatch reducer
expire-IsValid id s v = record {
  limited = omega (arith, length-without-le id s.toasts, v.limited);
  timed = delete-is_distinct s.timeouts id v.timed;
  leaving = without_leaving s.timeouts id s.toasts v.timed v.leaving;
}

toast-IsValid : (props : Props) (s : Toaster) → IsValid s → IsValid (toast props s).1
unfolding toast gen_id dispatch reducer
toast-IsValid props s v = record {
  limited = omega arith;
  timed = v.timed;
  leaving = (inl (get_prop-assign props (prop "open" (boolean true) empty) "open" refl), tt);
}

-- Each step leaves a valid toaster.
pub Step-IsValid : {s t : Toaster} → Step s t → IsValid s → IsValid t
unfolding on_open_change render subscribe unsubscribe
Step-IsValid (Step.shows props s) v = toast-IsValid props s v
Step-IsValid (Step.updates id props s kept distinct) v = update-IsValid id props s kept distinct v
Step-IsValid (Step.dismisses o s) v = dismiss-IsValid o s v
Step-IsValid (Step.changes id is_open s) v = elim (Bool-cases is_open) [
  | inl e ↦ rw e v
  | inr e ↦ rw e (dismiss-IsValid (some id) s v)
]
Step-IsValid (Step.expires id s runs) v = expire-IsValid id s v
Step-IsValid (Step.renders i s) v = record {
  limited = v.limited;
  timed = v.timed;
  leaving = v.leaving;
}
Step-IsValid (Step.subscribes i s) v = record {
  limited = v.limited;
  timed = v.timed;
  leaving = v.leaving;
}
Step-IsValid (Step.unsubscribes i s) v = record {
  limited = v.limited;
  timed = v.timed;
  leaving = v.leaving;
}

-- After any sequence of showing, updating (without the property open), dismissing, closing, ending
-- of running timers, rendering, subscribing and unsubscribing, at most one toast is on the page, no
-- id has two timers, and each toast on the page is open or has a timer that runs.
pub Reachable-IsValid : {s : Toaster} → Reachable s → IsValid s
Reachable-IsValid start = record { limited = omega arith; timed = refl; leaving = tt }
Reachable-IsValid (step r h) = Step-IsValid h (Reachable-IsValid r)
