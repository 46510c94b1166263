-- ===== src/Diff/View.antt =====
-- web/src/pages/FlameDiff.tsx: what the page shows around the chart.
use mini_drop_test.Base.{
  String, Bool, not, ◌&&◌, Option, List, nonempty, truthy, str_eq, if◌then◌else◌, map, is_some,
}
use mini_drop_test.Diff.{DiffState, helper_options}

module _ {R : Type 0} where
  unfoldable pub submit_label : DiffState R → String
  submit_label s = if s.loading then "对比中..." else "对比"

  unfoldable pub shown_error : DiffState R → Option String
  shown_error s = nonempty s.error

  -- The text in an empty page
  unfoldable pub shows_empty : DiffState R → Bool
  shows_empty s = not (is_some s.result) && not s.loading && not (truthy s.error)

  -- The buttons below a field that holds `value`: an id, and whether it is marked
  unfoldable pub helper_rows : String → DiffState R → List (String × Bool)
  unfolding helper_options
  helper_rows value s =
      map (λ option. (option.tid, str_eq value option.tid)) (helper_options R value s)
