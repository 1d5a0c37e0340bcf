-- ===== src/Routing.antt =====
-- ui/vite-opentask/src/routes: the tables of routes, the searches in them and the guard of the pages.
pub mod Search
pub mod Guard
use open_task.Common.{
  String, ◌==◌, Bool, true, false, not, Option, none, some, List, [], ◌∷◌, ◌++◌, if◌then◌else◌,
}

-- `IRouter['meta']`: the title of the page, and whether it wants a login. The other flags concern the
-- menu.
pub record Meta : Type 0 where
  pub title : Option String
  pub requires_auth : Option Bool
  pub hidden : Option Bool
  pub show_header : Option Bool
  pub blank : Option Bool

-- `IRouter`, and its `children`, which may be absent.
mutual
  pub data Router : Type 0 where
    router : Option String → Option String → Meta → Children → Router

  pub data Children : Type 0 where
    no_children : Children
    children : Routers → Children

  pub data Routers : Type 0 where
    nil : Routers
    cons : Router → Routers → Routers

abbrev pub id : Router → Option String
id (router i p m c) = i

abbrev pub path : Router → Option String
path (router i p m c) = p

abbrev pub meta : Router → Meta
meta (router i p m c) = m

abbrev pub children_of : Router → Children
children_of (router i p m c) = c

-- `a === b`, of a text and a text that may be undefined.
abbrev pub is : Option String → String → Bool
is none s = false
is (some t) s = t == s

-- `res != undefined`: what was found, or else what was found before. A route always has keys.
abbrev pub latest : Option Router → Option Router → Option Router
latest none result = result
latest (some r) result = some r

unfoldable mutual
  -- `searchRoute`, of routes that may be undefined.
  pub search_route : String → Children → Option Router
  search_route wanted no_children = none
  search_route wanted (children routes) = search_from wanted routes none

  -- Its loop, from what was found so far.
  pub search_from : String → Routers → Option Router → Option Router
  search_from wanted nil result = result
  search_from wanted (cons (router i p m c) rest) result =
      let found = search_route wanted c in
      let after = search_from wanted rest (latest found result) in
      if is p wanted then some (router i p m c) else after

unfoldable pub by_id : String → Routers → Option Router
by_id wanted nil = none
by_id wanted (cons r rest) =
    let after = by_id wanted rest in if is (id r) wanted then some r else after

unfoldable pub has_child : String → Children → Bool
has_child wanted no_children = false
has_child wanted (children nil) = false
has_child wanted (children (cons r rest)) =
    let after = has_child wanted (children rest) in if is (id r) wanted then true else after

unfoldable pub by_child : String → Routers → Option Router
unfolding has_child
by_child wanted nil = none
by_child wanted (cons r rest) =
    let after = by_child wanted rest in if has_child wanted (children_of r) then some r else after

-- `searchRouteV2`: the ids of the matches; no table is deeper.
unfoldable pub search_route_v2 : List String → Routers → Option Router
unfolding by_id by_child
search_route_v2 (first ∷ second ∷ []) routes = by_id second routes
search_route_v2 (first ∷ second ∷ third ∷ []) routes = by_child third routes
search_route_v2 _ routes = none

page : String → String → Meta → Router
page i p m = router (some i) (some p) m no_children

abbrev with_header : String → Meta
with_header title = record {
  title = some title;
  requires_auth = none;
  hidden = none;
  show_header = some true;
  blank = none;
}

abbrev titled : String → Meta
titled title = record {
  title = some title;
  requires_auth = none;
  hidden = none;
  show_header = none;
  blank = none;
}

-- `sideRoutes`, `bottomRoutes`, `hidden` and `fullscreenRoutes`
unfoldable pub side_routes : Routers
unfolding page
side_routes = cons (page "home" "/" (with_header "首页")) (
    cons (page "taskinfo" "/taskinfo" (with_header "计划任务")) (
      cons (page "tasklog" "/tasklog" (with_header "执行记录")) (
        cons (page "clients" "/clients" (with_header "工作节点"))
          (cons (page "about" "/about" (titled "关于")) nil))))

unfoldable pub bottom_routes : Routers
bottom_routes = nil

unfoldable pub hidden_routes : Routers
unfolding page
hidden_routes =
    cons (page "setting" "/setting" (titled "设置中心")) (cons (page "user" "/user" (titled "个人")) nil)

unfoldable pub fullscreen_routes : Routers
unfolding page
fullscreen_routes =
    cons
      (page "login" "/login" (record {
        title = none;
        requires_auth = some false;
        hidden = some true;
        show_header = none;
        blank = none;
      }))
      nil

abbrev pub concat : Routers → Routers → Routers
concat nil ss = ss
concat (cons r rs) ss = cons r (concat rs ss)

unfoldable pub routes_with_layout : Routers
unfolding side_routes bottom_routes hidden_routes
routes_with_layout = concat side_routes (concat bottom_routes hidden_routes)

unfoldable pub all_routes : Routers
unfolding routes_with_layout fullscreen_routes
all_routes = concat routes_with_layout fullscreen_routes

-- What the guard `Route` renders: the page itself, the page of a user, under the crumb of a route if
-- one is shown, or a redirect.
pub data View : Type 0 where
  children_only : View
  user_page : Bool → Option Router → View
  navigate : String → View

-- `route.meta?.requiresAuth ?? true`, and true without a route.
abbrev pub requires_auth : Option Router → Bool
requires_auth none = true
requires_auth (some r) = elim ((meta r).requires_auth) [ none ↦ true | some b ↦ b ]

-- `route?.path != "/"`
abbrev pub has_crumb : Option Router → Bool
has_crumb none = true
has_crumb (some r) = not (is (path r) "/")

-- `Route`: the ids of the matches, and whether there is a current user.
unfoldable pub route_view : List String → Bool → View
unfolding search_route_v2 all_routes
route_view matches has_user =
    let route = search_route_v2 matches all_routes in
    if requires_auth route
    then (if has_user then user_page (has_crumb route) route else navigate "/login")
    else children_only
