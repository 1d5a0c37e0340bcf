-- ===== src/Toast.antt =====
-- ui/vite-opentask/src/components/ui/use-toast.ts: the toasts on the page. The module's variables
-- (`count`, `toastTimeouts`, `memoryState`, `listeners`) are the fields of `Toaster`, and each
-- operation gives the toaster that it leaves. A listener, React's `setState` of a component, is a
-- number, and what it was last given is in `shown`. The handler `onOpenChange` of a toast is the
-- operation `on_open_change` at its id, and not one of its properties.
pub mod Reducer
pub mod Steps
use open_task.Common.{
  ℕ, ◌+◌, ◌%◌, String, ◌==◌, Bool, true, false, not, ◌||◌, Option, none, some, List, [], ◌∷◌, ◌++◌,
  take, map, if◌then◌else◌, eqb,
}
use open_task.Js.Value.{Value, boolean, Props, empty, prop, assign}
use open_task.Js.Text.{decimal}

abbrev pub toast_limit : ℕ
toast_limit = 1

-- `Number.MAX_SAFE_INTEGER`
abbrev pub max_safe_integer : ℕ
max_safe_integer = 9007199254740991

-- `ToasterToast`: its id, and its other properties (`open`, `title`, `description`, ...).
pub record ToasterToast : Type 0 where
  pub id : String
  pub props : Props

-- An absent `toastId` is `none`. A partial toast without an id is not made.
pub data Action : Type 0 where
  add_toast : ToasterToast → Action
  update_toast : ToasterToast → Action
  dismiss_toast : Option String → Action
  remove_toast : Option String → Action

-- `timeouts` are the ids whose timer runs, in the order of the map.
pub record Toaster : Type 0 where
  pub count : ℕ
  pub toasts : List ToasterToast
  pub timeouts : List String
  pub listeners : List ℕ
  pub shown : ℕ → List ToasterToast

-- `toastTimeouts.has(id)`
abbrev pub has : List String → String → Bool
has [] id = false
has (x ∷ xs) id = x == id || has xs id

-- `toastTimeouts.delete(id)`
unfoldable pub delete : List String → String → List String
delete [] id = []
delete (x ∷ xs) id = if x == id then xs else x ∷ delete xs id

unfoldable pub gen_id : Toaster → String × Toaster
gen_id s =
    let count = (s.count + 1) % max_safe_integer in (decimal count, record s { count = count })

unfoldable pub add_to_remove_queue : List String → String → List String
add_to_remove_queue timeouts id = if has timeouts id then timeouts else timeouts ++ (id ∷ [])

-- `state.toasts.forEach((toast) => { addToRemoveQueue(toast.id) })`
unfoldable pub queue_all : List String → List ToasterToast → List String
unfolding add_to_remove_queue
queue_all timeouts [] = timeouts
queue_all timeouts (t ∷ ts) = queue_all (add_to_remove_queue timeouts t.id) ts

abbrev pub merged : ToasterToast → ToasterToast → ToasterToast
merged u t = if t.id == u.id then record t { props = assign t.props u.props } else t

abbrev pub closed : ToasterToast → ToasterToast
closed t = record t { props = assign t.props (prop "open" (boolean false) empty) }

-- `t.id === toastId || toastId === undefined`
abbrev pub closed_for : Option String → ToasterToast → ToasterToast
closed_for none t = closed t
closed_for (some id) t = if t.id == id then closed t else t

abbrev pub without : String → List ToasterToast → List ToasterToast
without id [] = []
without id (t ∷ ts) = if t.id == id then without id ts else t ∷ without id ts

-- `if (toastId)`: an empty text counts as none.
unfoldable pub queued : Toaster → Option String → List String
unfolding add_to_remove_queue queue_all
queued s none = queue_all s.timeouts s.toasts
queued s (some id) =
    if id == "" then queue_all s.timeouts s.toasts else add_to_remove_queue s.timeouts id

-- `reducer`, with its effect on the timers.
unfoldable pub reducer : Toaster → Action → Toaster
unfolding queued
reducer s (add_toast t) = record s { toasts = take toast_limit (t ∷ s.toasts) }
reducer s (update_toast u) = record s { toasts = map (merged u) s.toasts }
reducer s (dismiss_toast id) = record s {
  timeouts = queued s id;
  toasts = map (closed_for id) s.toasts;
}
reducer s (remove_toast none) = record s { toasts = [] }
reducer s (remove_toast (some id)) = record s { toasts = without id s.toasts }

abbrev pub is_listener : List ℕ → ℕ → Bool
is_listener [] i = false
is_listener (j ∷ js) i = eqb j i || is_listener js i

-- `dispatch`: every listener is given the toasts.
unfoldable pub dispatch : Toaster → Action → Toaster
unfolding reducer
dispatch s action =
    let s' = reducer s action in
    record s' { shown = λ i. if is_listener s'.listeners i then s'.toasts else s'.shown i }

-- `toast`: the id of the new toast, and the toaster.
unfoldable pub toast : Props → Toaster → String × Toaster
unfolding gen_id dispatch
toast props s =
    let (id, s') = gen_id s in
    (
      id,
      dispatch s'
          (add_toast (record { id = id; props = assign props (prop "open" (boolean true) empty) })),
    )

-- The `update`, `dismiss` and `onOpenChange` of the toast with an id.
unfoldable pub update : String → Props → Toaster → Toaster
unfolding dispatch
update id props s = dispatch s (update_toast (record { id = id; props = props }))

unfoldable pub dismiss : Option String → Toaster → Toaster
unfolding dispatch
dismiss id s = dispatch s (dismiss_toast id)

unfoldable pub on_open_change : String → Bool → Toaster → Toaster
unfolding dismiss
on_open_change id is_open s = if not is_open then dismiss (some id) s else s

-- The callback of the timer of an id.
unfoldable pub expire : String → Toaster → Toaster
unfolding delete dispatch
expire id s = dispatch (record s { timeouts = delete s.timeouts id }) (remove_toast (some id))

-- `useToast`: the first render shows the toasts there are, the effect adds the listener, and its
-- cleanup removes the first such one.
unfoldable pub render : ℕ → Toaster → Toaster
render i s = record s { shown = λ j. if eqb i j then s.toasts else s.shown j }

unfoldable pub subscribe : ℕ → Toaster → Toaster
subscribe i s = record s { listeners = s.listeners ++ (i ∷ []) }

abbrev pub without_listener : List ℕ → ℕ → List ℕ
without_listener [] i = []
without_listener (j ∷ js) i = if eqb j i then js else j ∷ without_listener js i

unfoldable pub unsubscribe : ℕ → Toaster → Toaster
unsubscribe i s = record s { listeners = without_listener s.listeners i }

abbrev pub initial : Toaster
initial = record { count = 0; toasts = []; timeouts = []; listeners = []; shown = λ i. [] }
