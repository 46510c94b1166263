-- ===== src/Diff/Tree.antt =====
-- web/src/pages/FlameDiff.tsx: DiffFlamePanel's transformNode and what the panel shows. A number
-- that is missing or not a number is `none`; a missing list of children and an empty one are both
-- `no_nodes`.
pub mod Laws
use Prim.Native.String.{◌++◌}
use mini_drop_test.Base.{
  ℕ, zero, suc, ◌+◌, ◌≡◌, ap, String, Bool, true, false, Option, none, some, List, [], ◌∷◌, map, ℤ,
  pos, negsuc, abs, value_or, length, show, sum_by, arith, sym, ◌∙◌, refl,
}
use mathlib.Core.List
use mini_drop_test.Domain.{TopFunction}
use mini_drop_test.Flame.Chart.{ChartState, FullscreenRequest, toggle_fullscreen}

-- The fields of a node of the answer's tree
pub record DiffCounts : Type 0 where
  pub name : String
  pub self_value : Option ℤ
  pub self_delta : Option ℤ
  pub total_delta : Option ℤ

mutual
  pub data DiffNode : Type 0 where
    diff_node : DiffCounts → DiffNodes → DiffNode

  pub data DiffNodes : Type 0 where
    no_nodes : DiffNodes
    more_nodes : DiffNode → DiffNodes → DiffNodes

-- The fields of a node that the chart draws
pub record DrawnCounts : Type 0 where
  pub name : String
  pub self_value : ℤ
  pub value : ℕ
  pub delta : ℤ

mutual
  pub data DrawnNode : Type 0 where
    drawn_node : DrawnCounts → DrawnNodes → DrawnNode

  pub data DrawnNodes : Type 0 where
    no_drawn : DrawnNodes
    more_drawn : DrawnNode → DrawnNodes → DrawnNodes

-- `Number(x) || 0`
abbrev pub number_or_zero : Option ℤ → ℤ
number_or_zero x = value_or (pos 0) x

-- `a || b`
abbrev pub or_number : ℤ → ℤ → ℤ
or_number (pos zero) b = b
or_number (pos (suc n)) b = pos (suc n)
or_number (negsuc n) b = negsuc n

unfoldable pub transform_counts : DiffCounts → DrawnCounts
transform_counts counts = record {
  name = counts.name;
  self_value = number_or_zero counts.self_value;
  value = abs (number_or_zero counts.self_delta);
  delta = or_number (number_or_zero counts.total_delta) (number_or_zero counts.self_delta);
}

unfoldable mutual
  unfolding transform_counts

  pub transform_node : DiffNode → DrawnNode
  transform_node (diff_node counts nodes) =
      drawn_node (transform_counts counts) (transform_nodes nodes)

  pub transform_nodes : DiffNodes → DrawnNodes
  transform_nodes no_nodes = no_drawn
  transform_nodes (more_nodes node nodes) = more_drawn (transform_node node) (transform_nodes nodes)

pub record FlameDiffResult : Type 0 where
  pub added : List TopFunction
  pub removed : List TopFunction
  pub changed : List TopFunction
  pub tree : Option DiffNode
  pub base_tid : String
  pub curr_tid : String

-- What the panel draws: the transformed tree, or none
unfoldable pub chart_data : FlameDiffResult → Option DrawnNode
unfolding transform_node
chart_data result = elim result.tree [ none ↦ none | some node ↦ some (transform_node node) ]

-- The text in place of a chart
unfoldable pub flat_text : FlameDiffResult → String
flat_text result =
    "后端返回扁平 diff: "
    ++ (show (length result.changed)
        ++ (" 个变化函数, "
            ++ (show (length result.added)
                ++ (" 个新增, " ++ (show (length result.removed) ++ " 个移除")))))

-- The nodes of a tree, each before those below it
unfoldable mutual
  pub nodes_of : DiffNode → List DiffCounts
  nodes_of (diff_node counts nodes) = counts ∷ nodes_below nodes

  pub nodes_below : DiffNodes → List DiffCounts
  nodes_below no_nodes = []
  nodes_below (more_nodes node nodes) = List.◌++◌ (nodes_of node) (nodes_below nodes)

mutual
  pub drawn_of : DrawnNode → List DrawnCounts
  drawn_of (drawn_node counts nodes) = counts ∷ drawn_below nodes

  pub drawn_below : DrawnNodes → List DrawnCounts
  drawn_below no_drawn = []
  drawn_below (more_drawn node nodes) = List.◌++◌ (drawn_of node) (drawn_below nodes)
