-- ===== src/Diff/Tests.antt =====
-- The tree of a comparison.
use mini_drop_test.Base.{true, List, [], ◌∷◌, ◌≡◌, refl, none, some, String, ℤ, pos, negsuc}
use mini_drop_test.Api.{Reply, response}
use mini_drop_test.Diff.{diff_start}
use mini_drop_test.Diff.Events.{Ids, compare, swap, answered, diff_steps}
use mini_drop_test.Diff.Events.Laws.{Compares, diff_steps-Compares}
use mini_drop_test.Flame.Chart.{ChartState}
use mini_drop_test.Diff.Panel.{
  PanelEvent, result_set, searched, fullscreen, resized, timed_out, panel_start, panel_steps,
}
use mini_drop_test.Diff.Panel.Laws.{DrawsTree, panel_steps-DrawsTree}
use mini_drop_test.Diff.Tree.{
  FlameDiffResult, DrawnNode, DiffNode, diff_node, no_nodes, more_nodes, DiffCounts, transform_node,
}
use mini_drop_test.Diff.Tree.Laws.{depths_of}

abbrev counts : String → ℤ → DiffCounts
counts name delta = record {
  name = name;
  self_value = some (pos 4);
  self_delta = some delta;
  total_delta = none;
}

abbrev tree : DiffNode
tree = diff_node (counts "all" (pos 0)) (
    more_nodes (diff_node (counts "read" (negsuc 4)) no_nodes)
      (more_nodes (diff_node (counts "write" (pos 5)) no_nodes) no_nodes))

tree_depths : depths_of 0 tree ≡ 0 ∷ 1 ∷ 1 ∷ []
unfolding depths_of
tree_depths = refl

-- Every comparison is answered with its own two ids.
abbrev echo : Ids → Reply Ids
echo ids = response (record { code = 0; payload = some ids; message = none })

diff_steps-Compares_example : (ids : Ids) × Compares echo ("t1", "t2") ids
unfolding diff_steps diff_start
diff_steps-Compares_example =
    diff_steps-Compares echo (compare ∷ swap ∷ compare ∷ answered 1 ∷ []) (some "t1") (some "t2")
      ("t1", "t2") refl

abbrev compared : FlameDiffResult
compared = record {
  added = [];
  removed = [];
  changed = [];
  tree = some tree;
  base_tid = "t1";
  curr_tid = "t2";
}

abbrev viewing : List PanelEvent
viewing =
    result_set (some (record compared { tree = none })) 900 0
    ∷ searched "read"
    ∷ resized 700 640
    ∷ result_set (some compared) 900 0
    ∷ fullscreen true
    ∷ timed_out
    ∷ []

panel_steps-DrawsTree_example :
    (s : ChartState DrawnNode) × ((panel_steps viewing panel_start).chart ≡ some s)
    × DrawsTree (transform_node tree) s
unfolding panel_steps panel_start
panel_steps-DrawsTree_example = panel_steps-DrawsTree viewing compared tree refl refl
