-- ===== src/Layout.antt =====
-- The frame of the pages: ui/vite-opentask/src/layout, components/nav, components/sidebar,
-- components/dashboard-nav.tsx and theme/theme-provider.tsx. Class names are modelled where they carry
-- a state, and icons are left out.
pub mod Menus
pub mod Themes
use Prim.Native.String
use open_task.Common.{
  ℕ, zero, suc, String, ◌==◌, Bool, true, false, not, ◌&&◌, ◌||◌, Option, none, some, List, [], ◌∷◌,
  eqb, if◌then◌else◌,
}
use open_task.Js.Value.{Value, string}
use open_task.Js.TextSet.{add, delete}
use open_task.Routing.{Routers, nil, cons, Router, path, meta}

-- `s.endsWith(t)`, `s.startsWith(t)` and `s.indexOf(t) >= 0`
unfoldable pub ends_with : String → String → Bool
ends_with String.[] t = t == ""
ends_with (String.◌∷◌ c s) t = if String.◌∷◌ c s == t then true else ends_with s t

unfoldable pub starts_with : String → String → Bool
starts_with s String.[] = true
starts_with String.[] (String.◌∷◌ e t) = false
starts_with (String.◌∷◌ c s) (String.◌∷◌ e t) =
    String.◌∷◌ c "" == String.◌∷◌ e "" && starts_with s t

unfoldable pub contains : String → String → Bool
unfolding starts_with
contains String.[] t = t == ""
contains (String.◌∷◌ c s) t = if starts_with (String.◌∷◌ c s) t then true else contains s t

-- `LinkInfo` of a `Nav`: where it leads, which may be nowhere.
pub record LinkInfo : Type 0 where
  pub title : String
  pub to : Option String

-- `x.to && pathname.endsWith(x.to)`
unfoldable pub leads_here : String → LinkInfo → Bool
unfolding ends_with
leads_here pathname link = elim (link.to) [
  | none ↦ false
  | some to ↦ not (to == "") && ends_with pathname to
]

first_here : String → ℕ → List LinkInfo → Option ℕ
first_here pathname i [] = none
first_here pathname i (link ∷ links) =
    if leads_here pathname link then some i else first_here pathname (suc i) links

-- `active` of a `Nav`: the first link that leads to the path, or else the first one.
unfoldable pub active_link : String → List LinkInfo → Option ℕ
unfolding leads_here first_here
active_link pathname [] = none
active_link pathname (link ∷ links) = elim (first_here pathname 0 (link ∷ links)) [
  | none ↦ some 0
  | some i ↦ some i
]

-- `NavItem` of the menus.
pub record NavItem : Type 0 where
  pub href : Option String
  pub title : String
  pub blank : Option Bool

-- `sidebarNavItems` and `fixedNavItems`; `generate_path` is the router's, with the parameters of the page.
nav_item : (String → String) → Router → NavItem
nav_item generate_path r = record {
  href = elim (path r) [
    | none ↦ none
    | some p ↦ if p == "" then some "" else some (generate_path p)
  ];
  title = elim ((meta r).title) [ none ↦ "" | some t ↦ t ];
  blank = (meta r).blank;
}

unfoldable pub nav_items : (String → String) → Routers → List NavItem
unfolding nav_item
nav_items generate_path nil = []
nav_items generate_path (cons r rest) = nav_item generate_path r ∷ nav_items generate_path rest

-- What a menu renders of an item.
pub record ItemView : Type 0 where
  pub to : String
  pub new_window : Bool
  pub is_highlighted : Bool
  pub shows_title : Bool
  pub has_hint : Bool

-- `item.href && …`
abbrev pub shown_href : NavItem → Option String
shown_href item = elim (item.href) [ none ↦ none | some h ↦ if h == "" then none else some h ]

abbrev pub is_blank : NavItem → Bool
is_blank item = elim (item.blank) [ none ↦ false | some b ↦ b ]

-- An item of a `SidebarNav`, whose path is highlighted wherever it occurs in the page's, but "/" only
-- on its own.
unfoldable pub sidebar_item : String → Bool → NavItem → Option ItemView
unfolding contains
sidebar_item pathname minimized item = elim (shown_href item) [
  | none ↦ none
  | some href ↦ some (record {
    to = href;
    new_window = is_blank item;
    is_highlighted = if href == "/" then pathname == "/" else contains pathname href;
    shows_title = not minimized;
    has_hint = minimized;
  })
]

-- `!isMinimized` of the imported atom: an object, and so never false.
abbrev not_the_atom : Bool
not_the_atom = false

-- An item of a `DashboardNav`.
unfoldable pub dashboard_item : String → Bool → Bool → NavItem → Option ItemView
dashboard_item pathname minimized is_mobile_nav item = elim (shown_href item) [
  | none ↦ none
  | some href ↦ some (record {
    to = href;
    new_window = false;
    is_highlighted = pathname == href;
    shows_title = is_mobile_nav || (not_the_atom && not is_mobile_nav);
    has_hint = not not_the_atom;
  })
]

-- The sidebar of the layout: whether it is narrow, whether the toggle's arrow is turned, and the state
-- after a click of it.
unfoldable pub is_narrow : Bool → Bool
is_narrow minimized = minimized

unfoldable pub arrow_turned : Bool → Bool
arrow_turned minimized = not_the_atom

unfoldable pub toggled : Bool → Bool
toggled minimized = not minimized

-- `handleClick` of the user's menu: `setToken("")`
unfoldable pub sign_out : {N : Type 0} → (Value → N → N) → N → N
sign_out set_token n = set_token (string "") n

-- The theme that a `ThemeProvider` starts with.
unfoldable pub initial_theme : Option String → String → String
initial_theme none default = default
initial_theme (some stored) default = if stored == "" then default else stored

-- The effect of a theme on the classes of the page's root; `prefers_dark` is that of the platform.
unfoldable pub apply_theme : Bool → String → List String → List String
apply_theme prefers_dark theme classes =
    let cleared = delete "dark" (delete "light" classes) in
    if theme == "system"
    then add (if prefers_dark then "dark" else "light") cleared
    else add theme cleared

-- `setTheme`: the storage under the provider's key, and the state.
unfoldable pub set_theme :
    {N : Type 0} → (String → String → N → N) → String → String → N → N × String
set_theme set_item storage_key theme n = (set_item storage_key theme n, theme)
