-- ===== src/Layout/Menus.antt =====
-- How the menus look, and what signing out of the user's menu does.
use open_task.Common.{
  String, ◌<>◌, ◌≡◌, refl, Bool, true, false, Option, none, some, List, [], ◌∷◌, map, ok,
  if◌then◌else◌,
}
use open_task.Js.Value.{Value, string}
use open_task.Js.Text.{Platform}
use open_task.Js.Stringify.{stringify}
use open_task.Js.Stringify.Plain.{stringify_plain}
use open_task.AppConfig.{stored_token}
use open_task.AppConfig.Token.{stored_token-stringify}
use open_task.Session.{Host, Checked, current_user}
use open_task.Routing.{side_routes, route_view, children_only, navigate}
use open_task.Routing.Guard.{is_login, route_view_anonymous}
use open_task.Layout.{
  NavItem, nav_items, nav_item, sidebar_item, dashboard_item, arrow_turned, toggled, sign_out,
  ItemView, contains, starts_with,
}

abbrev is_lit : Option ItemView → Bool
is_lit none = false
is_lit (some v) = v.is_highlighted

-- Which items of the console's sidebar are highlighted on a page; its paths have no parameters.
highlights : String → List Bool
highlights pathname =
    map (λ item. is_lit (sidebar_item pathname false item)) (nav_items (λ p. p) side_routes)

-- On each of the sidebar's pages its own item is highlighted, and no other.
highlights_own :
    (highlights "/" ≡ true ∷ false ∷ false ∷ false ∷ false ∷ [])
    × (highlights "/taskinfo" ≡ false ∷ true ∷ false ∷ false ∷ false ∷ [])
    × (highlights "/tasklog" ≡ false ∷ false ∷ true ∷ false ∷ false ∷ [])
    × (highlights "/clients" ≡ false ∷ false ∷ false ∷ true ∷ false ∷ [])
    × (highlights "/about" ≡ false ∷ false ∷ false ∷ false ∷ true ∷ [])
unfolding highlights sidebar_item nav_items nav_item side_routes contains starts_with
highlights_own = (refl, refl, refl, refl, refl)

-- Narrowing the sidebar changes neither its arrow nor an item of a dashboard's menu.
toggled_same :
    (pathname : String) (minimized is_mobile_nav : Bool) (item : NavItem)
    → (arrow_turned (toggled minimized) ≡ arrow_turned minimized)
      × (dashboard_item pathname (toggled minimized) is_mobile_nav item
          ≡ dashboard_item pathname minimized is_mobile_nav item)
unfolding arrow_turned dashboard_item
toggled_same pathname minimized is_mobile_nav item = (refl, refl)

-- Whether there is a current user.
abbrev pub is_user : Checked (Option Value) → Bool
is_user (ok (some user)) = true
is_user _ = false

module _ {N : Type 0} (d : Platform) (h : Host) (get_item : N → String → Option String)
    (set_token : Value → N → N) (n : N) where
  -- For a storage that keeps, as its item token, the JSON of every value that the setter of the
  -- token is given, signing out in any state leaves no token for the calls and no current user, and
  -- with that the guard shows the children as they are only on the login page, and redirects to
  -- /login from every other one.
  pub sign_out-guard :
      (matches : List String)
      → ((v : Value) (m : N) (text : String)
          → stringify d v ≡ string text
          → get_item (set_token v m) "token" ≡ some text)
      → (stored_token get_item (sign_out set_token n) ≡ "")
        × (current_user h (stored_token get_item (sign_out set_token n)) ≡ ok none)
        × (route_view matches
              (is_user (current_user h (stored_token get_item (sign_out set_token n))))
            ≡ (if is_login matches then children_only else navigate "/login"))
  unfolding current_user sign_out
  sign_out-guard matches keeps =
      let stored : String = "\"" <> ("" <> "\"") in
      let written = stringify_plain d "" refl in
      let out =
        stored_token-stringify d get_item "" stored (sign_out set_token n) refl written
          (keeps (string "") n stored written) in
      (out, rw out, rw out (route_view_anonymous matches))
