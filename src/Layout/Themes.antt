-- ===== src/Layout/Themes.antt =====
-- The classes of a theme.
use open_task.Common.{String, ◌==◌, ◌≡◌, Bool, true, not, ◌&&◌, ◌||◌, List, if◌then◌else◌, arith}
use open_task.Js.TextSet.{has, delete, is_set, has-add, has-delete, is_set-delete}
use open_task.Layout.{apply_theme}

-- The class that a theme stands for.
abbrev pub class_of : Bool → String → String
class_of prefers_dark theme =
    if theme == "system" then (if prefers_dark then "dark" else "light") else theme

-- After the effect of a theme, the root has the theme's class, of the classes light and dark no other
-- one, and otherwise the classes that it had.
pub has-apply_theme :
    (prefers_dark : Bool) (theme k : String) (classes : List String)
    → is_set classes ≡ true
    → has (apply_theme prefers_dark theme classes) k ≡ (
        class_of prefers_dark theme == k
        || (not ("dark" == k) && (not ("light" == k) && has classes k)))
unfolding apply_theme
has-apply_theme prefers_dark theme k classes h =
    let cleared = delete "dark" (delete "light" classes) in
    ground (
      arith,
      has-add "dark" k cleared,
      has-add "light" k cleared,
      has-add theme k cleared,
      has-delete "light" k classes h,
      has-delete "dark" k (delete "light" classes) (is_set-delete "light" classes h),
    )
