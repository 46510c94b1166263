-- ===== src/Auth/Layout.antt =====
-- web/src/layouts/AppLayout.tsx: the bars around the pages, for a visitor who is signed in.
use mini_drop_test.Base.{
  ℕ, ◌≡◌, refl, String, Bool, true, false, not, Option, none, some, List, [], ◌∷◌, or_else, str_eq,
  if◌then◌else◌, map, filter, any, All, ◌&&◌,
}
use mini_drop_test.Effects.{Effect, navigate}
use Prim.Native.String.{◌++◌}
use mini_drop_test.Auth.{AuthState}
use mini_drop_test.Auth.Guard.{Element, page, redirect, routes}

pub record NavItem : Type 0 where
  pub path : String
  pub label : String

abbrev pub nav_items : List NavItem
nav_items =
    record { path = "/index"; label = "概览" }
    ∷ record { path = "/tasks"; label = "任务列表" }
    ∷ record { path = "/flame/diff"; label = "火焰图对比" }
    ∷ record { path = "/agents"; label = "Agent 管理" }
    ∷ record { path = "/groups"; label = "用户组" }
    ∷ record { path = "/settings"; label = "设置" }
    ∷ []

unfoldable pub user_label : AuthState → String
user_label s = or_else (some s.user_name) "用户"

-- `collapsed` is the layout's only state.
unfoldable pub toggle_collapsed : Bool → Bool
toggle_collapsed collapsed = not collapsed

unfoldable pub sidebar_width : Bool → ℕ
sidebar_width collapsed = if collapsed then 60 else 220

unfoldable pub toggle_label : Bool → String
toggle_label collapsed = if collapsed then "→" else "← 收起"

unfoldable pub sidebar_footer : Bool → Option String
sidebar_footer collapsed = if collapsed then none else some "性能采集与分析平台"

unfoldable pub is_active : String → NavItem → Bool
is_active pathname item = str_eq pathname item.path

unfoldable pub click_item : NavItem → List Effect
click_item item = navigate item.path ∷ []

-- An item with the text that is shown, and whether it is marked
unfoldable pub nav_rows : Bool → String → List (Option String × Bool)
unfolding is_active
nav_rows collapsed pathname =
    map (λ item. (if collapsed then none else some item.label, is_active pathname item)) nav_items

-- The items that are marked, at an address
unfoldable pub marked : String → List NavItem
unfolding is_active
marked pathname = filter (is_active pathname) nav_items

shows_page : Element → Bool
shows_page (page p) = true
shows_page (redirect address) = false

-- Some route has the address, and shows a page there.
unfoldable pub has_page : String → Bool
unfolding routes shows_page
has_page address = any (λ route. shows_page route.1 && str_eq address ("/" ++ route.0)) routes

-- A click on an item leads to a page, where just that item is marked.
pub nav_items_lem :
    All (λ item. (has_page item.path ≡ true) × (marked item.path ≡ item ∷ [])) nav_items
unfolding has_page marked
nav_items_lem = (
  (refl, refl),
  ((refl, refl), ((refl, refl), ((refl, refl), ((refl, refl), ((refl, refl), tt))))),
)
