-- ===== src/Auth/Guard.antt =====
-- web/src/layouts/AppLayout.tsx: what the layout shows and where it sends a visitor; the error
-- boundary around it, web/src/components/ErrorBoundary.tsx; the routes, web/src/router.tsx.
use mini_drop_test.Base.{
  String, Bool, true, false, not, ◌&&◌, Option, none, some, List, [], ◌∷◌, or_else, if◌then◌else◌,
}
use mini_drop_test.Effects.{Effect, replace}
use mini_drop_test.Auth.{AuthState}

pub data View : Type 0 where
  waiting : View
  to_login : View
  content : View

unfoldable pub layout_view : AuthState → View
layout_view s = if s.loading then waiting else if not s.is_auth then to_login else content

-- The effect that runs when `loading` or `isAuth` changes
unfoldable pub layout_effect : AuthState → List Effect
layout_effect s = if not s.loading && not s.is_auth then replace "/login" ∷ [] else []

pub record BoundaryState : Type 0 where
  pub has_error : Bool
  pub error : Option (Option String)  -- the message of the error that is kept

unfoldable pub boundary_start : BoundaryState
boundary_start = record { has_error = false; error = none }

unfoldable pub derived_state_from_error : Option String → BoundaryState
derived_state_from_error message = record { has_error = true; error = some message }

pub data Rendered : Type 0 where
  children : Rendered
  failure_page : String → Rendered

abbrev kept_message : Option (Option String) → Option String
kept_message none = none
kept_message (some message) = message

unfoldable pub boundary_view : BoundaryState → Rendered
boundary_view s =
    if s.has_error then failure_page (or_else (kept_message s.error) "未知错误") else children

-- The pages behind the layout; `redirect` replaces the address.
pub data Page : Type 0 where
  home task_list task_result flame_diff_page continuous_timeline agents_page agent_detail
        groups_page settings_page :
      Page

pub data Element : Type 0 where
  page : Page → Element
  redirect : String → Element

unfoldable pub routes : List (String × Element)
routes =
    ("", redirect "/index")
    ∷ ("index", page home)
    ∷ ("tasks", page task_list)
    ∷ ("task/result", page task_result)
    ∷ ("flame/diff", page flame_diff_page)
    ∷ ("continuous", page continuous_timeline)
    ∷ ("agents", page agents_page)
    ∷ ("agents/:ip", page agent_detail)
    ∷ ("groups", page groups_page)
    ∷ ("schedules", redirect "/tasks?view=schedules")
    ∷ ("settings", page settings_page)
    ∷ []
