-- ===== src/Flame/Tree/Paths.antt =====
-- The tree as a map from stacks to counts: what stands at the end of each path.
use mathlib.Core.List.{Permᴰ}
use mini_drop_test.Base.{
  ℕ, ◌+◌, ◌≡◌, refl, String, Bool, true, false, ◌&&◌, Option, none, some, List, [], ◌∷◌, split,
  sum_by, arith, ap, sym, ◌∙◌, sum_by-perm, str_eq, if◌then◌else◌, eq_iff,
}
use native.Mathlib.Nat.{zero-add}
use mini_drop_test.Flame.Tree.Outcome.{parse_collapsed_to_tree-some}
use mini_drop_test.Flame.Tree.{
  FlameNode, node, name, Children, nil, cons, Sample, parse_line, update_child, add_stack,
  add_sample, add_lines, empty_root, parse_collapsed_to_tree,
}

value_in : String → (FlameNode → ℕ) → Children → ℕ
value_in frame f nil = 0
value_in frame f (cons c cs) =
    let rest = value_in frame f cs in if str_eq (name c) frame then f c else rest

-- The value of the node at the end of a path below the root; 0 where there is no such node
pub value_at : List String → FlameNode → ℕ
unfolding value_in
value_at [] (node n v cs) = v
value_at (frame ∷ frames) (node n v cs) = value_in frame (value_at frames) cs

abbrev pub path_eq : List String → List String → Bool
path_eq [] [] = true
path_eq (f ∷ fs) (g ∷ gs) = str_eq f g && path_eq fs gs
path_eq _ _ = false

abbrev count_if : Bool → ℕ → ℕ
count_if hit count = if hit then count else 0

pub name-add_stack :
    (frames : List String) (count : ℕ) (t : FlameNode) → name (add_stack frames count t) ≡ name t
unfolding add_stack
name-add_stack [] count (node n v cs) = refl
name-add_stack (f ∷ fs) count (node n v cs) = refl

value_at-fresh : (path : List String) (frame : String) → value_at path (node frame 0 nil) ≡ 0
unfolding value_at
value_at-fresh [] frame = refl
value_at-fresh (f ∷ fs) frame = refl

value_in-update_child :
    (frame new : String) (value : FlameNode → ℕ) (f : FlameNode → FlameNode) (m : ℕ) (cs : Children)
    → ((t : FlameNode) → value (f t) ≡ value t + m)
    → ((t : FlameNode) → name (f t) ≡ name t)
    → value (node new 0 nil) ≡ 0
    → value_in frame value (update_child new f cs)
      ≡ value_in frame value cs + count_if (str_eq frame new) m
unfolding value_in update_child
value_in-update_child frame new value f m nil adds keeps fresh = ground (
  arith,
  adds (node new 0 nil),
  keeps (node new 0 nil),
  eq_iff new frame,
  eq_iff frame new,
  eq_iff (name (f (node new 0 nil))) frame,
)
value_in-update_child frame new value f m (cons c cs) adds keeps fresh = ground (
  arith,
  adds c,
  keeps c,
  eq_iff (name c) new,
  eq_iff (name c) frame,
  eq_iff frame new,
  eq_iff (name (f c)) frame,
  value_in-update_child frame new value f m cs adds keeps fresh,
)

-- Adding a stack adds its count at the end of its own path, and nowhere else.
pub value_at-add_stack :
    (path frames : List String) (count : ℕ) (t : FlameNode)
    → value_at path (add_stack frames count t)
      ≡ value_at path t + count_if (path_eq path frames) count
unfolding value_at add_stack
value_at-add_stack [] [] count (node n v cs) = refl
value_at-add_stack [] (g ∷ gs) count (node n v cs) = omega arith
value_at-add_stack (f ∷ fs) [] count (node n v cs) = omega arith
value_at-add_stack (f ∷ fs) (g ∷ gs) count (node n v cs) = ground (
  arith,
  value_in-update_child f g (value_at fs) (add_stack gs count) (count_if (path_eq fs gs) count) cs
      (value_at-add_stack fs gs count) (name-add_stack gs count) (value_at-fresh fs g),
)

-- What a line adds at a path
abbrev pub hits : List String → Option Sample → ℕ
hits path none = 0
hits path (some (frames, count)) = count_if (path_eq path frames) count

value_at-add_sample :
    (path : List String) (s : Option Sample) (t : FlameNode)
    → value_at path (add_sample s t) ≡ value_at path t + hits path s
value_at-add_sample path none t = omega arith
value_at-add_sample path (some (frames, count)) t = value_at-add_stack path frames count t

-- After any lines, the value at a path has grown by the counts of the lines with just that stack.
pub value_at-add_lines :
    (path : List String) (lines : List String) (t : FlameNode)
    → value_at path (add_lines lines t)
      ≡ value_at path t + sum_by (λ line. hits path (parse_line line)) lines
unfolding add_lines
value_at-add_lines path [] t = omega arith
value_at-add_lines path (line ∷ lines) t = omega (
  arith,
  value_at-add_lines path lines (add_sample (parse_line line) t),
  value_at-add_sample path (parse_line line) t,
)

-- The tree of a collapsed text holds at each path the sum of the counts of the lines with just that
-- stack, and 0 where there is none.
pub value_at-parse_collapsed_to_tree :
    (text : String) (t : FlameNode) (path : List String)
    → parse_collapsed_to_tree text ≡ some t
    → value_at path t ≡ sum_by (λ line. hits path (parse_line line)) (split 10 text)
value_at-parse_collapsed_to_tree text t path h =
    ap (value_at path) (sym (parse_collapsed_to_tree-some text h))
    ∙ value_at-add_lines path (split 10 text) empty_root
    ∙ rw value_at-fresh (zero-add _)

-- The order of the lines does not matter: two texts whose lines are permutations of one another
-- have trees with the same value at every path.
pub value_at-lines_perm :
    (text other : String) (t u : FlameNode) (path : List String)
    → parse_collapsed_to_tree text ≡ some t
    → parse_collapsed_to_tree other ≡ some u
    → Permᴰ (split 10 text) (split 10 other)
    → value_at path t ≡ value_at path u
value_at-lines_perm text other t u path h k p =
    value_at-parse_collapsed_to_tree text t path h
    ∙ sum_by-perm (λ line. hits path (parse_line line)) p
    ∙ sym (value_at-parse_collapsed_to_tree other u path k)
