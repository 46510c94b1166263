-- ===== src/Flame/Tree/Weight.antt =====
-- No sample is lost or counted twice: the values of the tree add up to the counts of the lines.
use mini_drop_test.Base.{
  ℕ, ◌+◌, ◌≡◌, String, Option, none, some, List, [], ◌∷◌, split, sum_by, arith, ap, sym, ◌∙◌,
}
use native.Mathlib.Nat.{zero-add}
use mini_drop_test.Flame.Tree.Outcome.{parse_collapsed_to_tree-some}
use mini_drop_test.Flame.Tree.{
  FlameNode, node, Children, nil, cons, Sample, parse_line, update_child, add_stack, add_sample,
  add_lines, empty_root, parse_collapsed_to_tree,
}

unfoldable mutual
  -- The sum of the values of a node and of all nodes below it
  pub weight : FlameNode → ℕ
  weight (node n v cs) = v + weights cs

  pub weights : Children → ℕ
  weights nil = 0
  weights (cons c cs) = weight c + weights cs

weights-update_child :
    (frame : String) (f : FlameNode → FlameNode) (count : ℕ) (cs : Children)
    → ((t : FlameNode) → weight (f t) ≡ weight t + count)
    → weights (update_child frame f cs) ≡ weights cs + count
unfolding update_child weight weights
weights-update_child frame f count nil h = omega (arith, h (node frame 0 nil))
weights-update_child frame f count (cons c cs) h =
    ground (arith, h c, weights-update_child frame f count cs h)

-- Adding a stack adds its count to the tree's weight.
pub weight-add_stack :
    (frames : List String) (count : ℕ) (t : FlameNode)
    → weight (add_stack frames count t) ≡ weight t + count
unfolding add_stack weight
weight-add_stack [] count (node n v cs) = omega arith
weight-add_stack (frame ∷ frames) count (node n v cs) = omega (
  arith,
  weights-update_child frame (add_stack frames count) count cs (weight-add_stack frames count),
)

-- The count of a line that is kept
abbrev pub count_of : Option Sample → ℕ
count_of none = 0
count_of (some (frames, count)) = count

weight-add_sample :
    (s : Option Sample) (t : FlameNode) → weight (add_sample s t) ≡ weight t + count_of s
weight-add_sample none t = omega arith
weight-add_sample (some (frames, count)) t = weight-add_stack frames count t

weight-add_lines :
    (lines : List String) (t : FlameNode)
    → weight (add_lines lines t) ≡ weight t + sum_by (λ line. count_of (parse_line line)) lines
unfolding add_lines
weight-add_lines [] t = omega arith
weight-add_lines (line ∷ lines) t = omega (
  arith,
  weight-add_lines lines (add_sample (parse_line line) t),
  weight-add_sample (parse_line line) t,
)

-- The tree of a collapsed text weighs as much as the counts of the lines that are kept.
pub weight-parse_collapsed_to_tree :
    (text : String) (t : FlameNode)
    → parse_collapsed_to_tree text ≡ some t
    → weight t ≡ sum_by (λ line. count_of (parse_line line)) (split 10 text)
unfolding weight weights
weight-parse_collapsed_to_tree text t h =
    ap weight (sym (parse_collapsed_to_tree-some text h))
    ∙ weight-add_lines (split 10 text) empty_root
    ∙ zero-add _
