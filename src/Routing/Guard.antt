-- ===== src/Routing/Guard.antt =====
-- Which pages are shown to whom.
use open_task.Common.{
  String, ◌==◌, ◌≡◌, refl, Bool, false, List, [], ◌∷◌, if◌then◌else◌, arith, Bool-cases, inl, inr,
  eq_iff, subst,
}
use open_task.Routing.{
  children_only, navigate, route_view, search_route_v2, all_routes, side_routes, bottom_routes,
  hidden_routes, fullscreen_routes, routes_with_layout, by_id, by_child, has_child, page,
}

-- The matches of the login page: its layout, and itself.
abbrev pub is_login : List String → Bool
is_login (first ∷ second ∷ []) = "login" == second
is_login _ = false

-- Without a current user, the guard shows the children as they are exactly when the matches are a
-- layout and the route login, and redirects to /login for all other matches, whatever their number.
pub route_view_anonymous :
    (matches : List String)
    → route_view matches false ≡ (if is_login matches then children_only else navigate "/login")
unfolding route_view search_route_v2 all_routes side_routes bottom_routes hidden_routes
    fullscreen_routes routes_with_layout by_id by_child has_child page
route_view_anonymous (first ∷ second ∷ []) = elim (Bool-cases ("login" == second)) [
  | inl e ↦
      subst
        (λ s.
          route_view (first ∷ s ∷ []) false
          ≡ (if "login" == s then children_only else navigate "/login"))
        ((eq_iff "login" second).0 e) refl
  | inr e ↦ rw e (ground arith)
]
route_view_anonymous (first ∷ second ∷ third ∷ []) = refl
route_view_anonymous [] = refl
route_view_anonymous (first ∷ []) = refl
route_view_anonymous (first ∷ second ∷ third ∷ fourth ∷ rest) = refl
