-- ===== src/Flame/Tree/Siblings.antt =====
-- Every node of the tree has children of pairwise different names, so each stack is one node.
use mini_drop_test.Base.{
  ℕ, ◌≡◌, ◌≢◌, String, Option, none, some, List, [], ◌∷◌, split, arith, str_eq, eq_iff, sym, inl,
  inr, Bool-cases,
}
use mini_drop_test.Flame.Tree.{
  FlameNode, node, name, Children, nil, cons, Sample, parse_line, update_child, add_stack,
  add_sample, add_lines, empty_root, parse_collapsed_to_tree,
}
use mini_drop_test.Flame.Tree.Outcome.{parse_collapsed_to_tree-some}
use mini_drop_test.Flame.Tree.Paths.{name-add_stack}

abbrev Lacks : String → Children → Type 0
Lacks frame nil = Unit
Lacks frame (cons c cs) = (name c ≢ frame) × Lacks frame cs

abbrev HasDistinctNames : Children → Type 0
HasDistinctNames nil = Unit
HasDistinctNames (cons c cs) = Lacks (name c) cs × HasDistinctNames cs

mutual
  -- Here and in every subtree the children have different names.
  pub data IsProper : FlameNode → Type 0 where
    proper :
        {n : String} {v : ℕ} {cs : Children}
        → HasDistinctNames cs
        → AreProper cs
        → IsProper (node n v cs)

  pub data AreProper : Children → Type 0 where
    none_left : AreProper nil
    and_then : {c : FlameNode} {cs : Children} → IsProper c → AreProper cs → AreProper (cons c cs)

Lacks-update_child :
    (other frame : String) (f : FlameNode → FlameNode) (cs : Children)
    → ((t : FlameNode) → name (f t) ≡ name t)
    → frame ≢ other
    → Lacks other cs
    → Lacks other (update_child frame f cs)
unfolding update_child
Lacks-update_child other frame f nil keeps ne h = ground (arith, keeps (node frame 0 nil))
Lacks-update_child other frame f (cons c cs) keeps ne h =
    ground (arith, keeps c, Lacks-update_child other frame f cs keeps ne)

HasDistinctNames-update_child :
    (frame : String) (f : FlameNode → FlameNode) (cs : Children)
    → ((t : FlameNode) → name (f t) ≡ name t)
    → HasDistinctNames cs
    → HasDistinctNames (update_child frame f cs)
unfolding update_child
HasDistinctNames-update_child frame f nil keeps h = (tt, tt)
HasDistinctNames-update_child frame f (cons c cs) keeps (lacks, h) =
    elim (Bool-cases (str_eq (name c) frame)) [
      | inl same ↦ rw same (rw (keeps c) (lacks, h))
      | inr other ↦ rw other (
        Lacks-update_child (name c) frame f cs keeps
            (λ e. cc (other, (eq_iff (name c) frame).1 (sym e))) lacks,
        HasDistinctNames-update_child frame f cs keeps h,
      )
    ]

fresh_IsProper : (frame : String) → IsProper (node frame 0 nil)
fresh_IsProper frame = proper tt none_left

AreProper-update_child :
    (frame : String) (f : FlameNode → FlameNode) {cs : Children}
    → ((t : FlameNode) → IsProper t → IsProper (f t))
    → AreProper cs
    → AreProper (update_child frame f cs)
unfolding update_child
AreProper-update_child frame f good none_left =
    and_then (good (node frame 0 nil) (fresh_IsProper frame)) none_left
AreProper-update_child frame f good (and_then {c} p ps) =
    elim (Bool-cases (str_eq (name c) frame)) [
      | inl same ↦ rw same (and_then (good c p) ps)
      | inr other ↦ rw other (and_then p (AreProper-update_child frame f good ps))
    ]

add_stack-IsProper :
    (frames : List String) (count : ℕ) (t : FlameNode)
    → IsProper t
    → IsProper (add_stack frames count t)
unfolding add_stack
add_stack-IsProper [] count (node n v cs) (proper d ps) = proper d ps
add_stack-IsProper (f ∷ fs) count (node n v cs) (proper d ps) =
    proper (HasDistinctNames-update_child f (add_stack fs count) cs (name-add_stack fs count) d)
      (AreProper-update_child f (add_stack fs count) (add_stack-IsProper fs count) ps)

add_lines-IsProper :
    (lines : List String) (t : FlameNode) → IsProper t → IsProper (add_lines lines t)
unfolding add_lines
add_lines-IsProper [] t h = h
add_lines-IsProper (line ∷ lines) t h =
    add_lines-IsProper lines (add_sample (parse_line line) t) (sample (parse_line line))
  where
    sample : (s : Option Sample) → IsProper (add_sample s t)
    sample none = h
    sample (some (frames, count)) = add_stack-IsProper frames count t h

-- In the tree of any collapsed text, no node has two children of the same name.
pub parse_collapsed_to_tree-IsProper :
    (text : String) (t : FlameNode) → parse_collapsed_to_tree text ≡ some t → IsProper t
parse_collapsed_to_tree-IsProper text t h =
    rw (← parse_collapsed_to_tree-some text h)
      (add_lines-IsProper (split 10 text) empty_root (fresh_IsProper "all"))
