-- ===== src/Diff/Tree/Laws.antt =====
-- The drawn tree has the nodes of the answer's tree.
use mini_drop_test.Base.{
  ℤ, pos, negsuc, Option, none, some, String, suc, ℕ, ◌+◌, ◌≡◌, refl, ap, sym, ◌∙◌, List, [], ◌∷◌,
  map,
}
use mathlib.Core.List
use mathlib.Core.List.{map-append}
use mini_drop_test.Diff.Tree.{
  DrawnNode, drawn_node, DrawnNodes, no_drawn, more_drawn, DrawnCounts, DiffCounts, DiffNode,
  diff_node, DiffNodes, no_nodes, more_nodes, transform_counts, transform_node, transform_nodes,
  nodes_of, nodes_below, drawn_of, drawn_below,
}

mutual
  unfolding transform_node transform_nodes nodes_of nodes_below drawn_of drawn_below

  drawn_node_lem :
      (node : DiffNode) → drawn_of (transform_node node) ≡ map transform_counts (nodes_of node)
  drawn_node_lem (diff_node counts nodes) =
      ap (λ l. transform_counts counts ∷ l) (drawn_nodes_lem nodes)

  drawn_nodes_lem :
      (nodes : DiffNodes)
      → drawn_below (transform_nodes nodes) ≡ map transform_counts (nodes_below nodes)
  drawn_nodes_lem no_nodes = refl
  drawn_nodes_lem (more_nodes node nodes) =
      ap (λ l. List.◌++◌ l (drawn_below (transform_nodes nodes))) (drawn_node_lem node)
      ∙ ap (λ l. List.◌++◌ (map transform_counts (nodes_of node)) l) (drawn_nodes_lem nodes)
      ∙ sym (map-append transform_counts (nodes_of node) (nodes_below nodes))

-- How deep each node lies, in the same order
unfoldable mutual
  pub depths_of : ℕ → DiffNode → List ℕ
  depths_of n (diff_node counts nodes) = n ∷ depths_below (n + 1) nodes

  pub depths_below : ℕ → DiffNodes → List ℕ
  depths_below n no_nodes = []
  depths_below n (more_nodes node nodes) = List.◌++◌ (depths_of n node) (depths_below n nodes)

mutual
  pub drawn_depths_of : ℕ → DrawnNode → List ℕ
  drawn_depths_of n (drawn_node counts nodes) = n ∷ drawn_depths_below (n + 1) nodes

  pub drawn_depths_below : ℕ → DrawnNodes → List ℕ
  drawn_depths_below n no_drawn = []
  drawn_depths_below n (more_drawn node nodes) =
      List.◌++◌ (drawn_depths_of n node) (drawn_depths_below n nodes)

mutual
  unfolding transform_node transform_nodes depths_of depths_below drawn_depths_of drawn_depths_below

  depths_lem :
      (n : ℕ) (node : DiffNode) → drawn_depths_of n (transform_node node) ≡ depths_of n node
  depths_lem n (diff_node counts nodes) = ap (λ l. n ∷ l) (depths_below_lem (n + 1) nodes)

  depths_below_lem :
      (n : ℕ) (nodes : DiffNodes)
      → drawn_depths_below n (transform_nodes nodes) ≡ depths_below n nodes
  depths_below_lem n no_nodes = refl
  depths_below_lem n (more_nodes node nodes) =
      ap (λ l. List.◌++◌ l (drawn_depths_below n (transform_nodes nodes))) (depths_lem n node)
      ∙ ap (λ l. List.◌++◌ (depths_of n node) l) (depths_below_lem n nodes)

-- The change of a node that colours it: its total one, or its own where that is missing or 0
abbrev pub change_of : Option ℤ → Option ℤ → ℤ
change_of (some (pos (suc n))) own = pos (suc n)
change_of (some (negsuc n)) own = negsuc n
change_of total none = pos 0
change_of total (some own) = own

abbrev pub width_of : Option ℤ → ℕ
width_of none = 0
width_of (some (pos n)) = n
width_of (some (negsuc n)) = suc n

abbrev pub samples_of : Option ℤ → ℤ
samples_of none = pos 0
samples_of (some n) = n

-- The fields that a node is drawn with
abbrev pub Fields : Type 0
Fields = String × ℤ × ℕ × ℤ

abbrev pub drawn_fields : DrawnCounts → Fields
drawn_fields drawn = (drawn.name, drawn.self_value, drawn.value, drawn.delta)

abbrev pub answer_fields : DiffCounts → Fields
answer_fields counts = (
  counts.name,
  samples_of counts.self_value,
  width_of counts.self_delta,
  change_of counts.total_delta counts.self_delta,
)
