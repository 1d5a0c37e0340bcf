-- ===== src/Tests/Toasts.antt =====
-- Toasts that come and go, and the routes of the console.
use open_task.Common.{
  ◌+◌, none, List, length, All, String, ◌≡◌, refl, some, true, false, [], ◌∷◌, if◌then◌else◌,
}
use open_task.Js.Value.{string, empty, prop}
use open_task.Js.Text.{decimal}
use open_task.Toast.{
  Toaster, toast, dismiss, initial, has, expire, gen_id, dispatch, reducer, queued, queue_all,
  add_to_remove_queue,
}
use open_task.Toast.Steps.{Step, Reachable, start, step, IsValid}
use open_task.Toast.Steps.Ending.{Ends, dismissed-Ends}
use open_task.Toast.Steps.Validity.{Reachable-IsValid}
use open_task.Routing.{
  Router, search_route, children, all_routes, path, is, route_view, children_only, navigate,
}
use open_task.Routing.Search.{IsIn, has_path_in, search_route_lem}
use open_task.Routing.Guard.{is_login, route_view_anonymous}

-- The toaster after one toast, and after its dismissal.
abbrev one_toast : Toaster
one_toast = (toast (prop "title" (string "saved") empty) initial).1

abbrev two_steps : Toaster
two_steps = dismiss (some "1") one_toast

abbrev no_toast : Toaster
no_toast = expire "1" (dismiss none one_toast)

one_toast-Reachable : Reachable one_toast
one_toast-Reachable = step start (Step.shows (prop "title" (string "saved") empty) initial)

one_toast-Ends : Ends ("1" ∷ []) (dismiss none one_toast) no_toast
unfolding toast gen_id dispatch reducer dismiss queued queue_all add_to_remove_queue decimal
one_toast-Ends = Ends.ends "1" (dismiss none one_toast) refl (Ends.none_ends no_toast)

two_steps-Reachable : Reachable two_steps
two_steps-Reachable = step one_toast-Reachable (Step.dismisses (some "1") one_toast)

Reachable-IsValid_example : IsValid two_steps
Reachable-IsValid_example = Reachable-IsValid two_steps-Reachable

-- Its timer ends.
dismissed-Ends_example :
    (length {A = String} ("1" ∷ []) + length no_toast.timeouts
      ≡ length ((dismiss none one_toast).timeouts))
    × All (λ x. has no_toast.timeouts x.id ≡ true) no_toast.toasts
    × ((more : List String) × (u : Toaster) × Ends more no_toast u
        × (u.timeouts ≡ [])
        × (u.toasts ≡ []))
dismissed-Ends_example = dismissed-Ends one_toast-Reachable one_toast-Ends

search_route_lem_example :
    ((r : Router)
      → search_route "/user" (children all_routes) ≡ some r
      → (is (path r) "/user" ≡ true) × IsIn r all_routes)
    × (has_path_in "/user" all_routes ≡ true
        → (r : Router) × (search_route "/user" (children all_routes) ≡ some r))
search_route_lem_example = search_route_lem "/user" all_routes

route_view_anonymous_example :
    route_view ("0" ∷ "taskinfo" ∷ []) false
    ≡ (if is_login ("0" ∷ "taskinfo" ∷ []) then children_only else navigate "/login")
route_view_anonymous_example = route_view_anonymous ("0" ∷ "taskinfo" ∷ [])
