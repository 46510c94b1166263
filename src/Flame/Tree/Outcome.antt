-- ===== src/Flame/Tree/Outcome.antt =====
-- When a collapsed text has a tree, and which.
use mini_drop_test.Base.{
  ℕ, ◌≡◌, refl, ◌≢◌, ◌↔◌, ◌⊎◌, inl, inr, String, Option, none, some, List, [], ◌∷◌, split,
  split_last, All, arith, truthy, trim, Bool-cases, Option-cases, ap, ◌∙◌,
}
use mini_drop_test.Flame.Tree.{
  FlameNode, node, Children, nil, cons, children, Sample, parse_line, update_child, add_stack,
  add_lines, empty_root, parse_collapsed_to_tree, has_children, with_count, cut_line,
}

-- The tree is the one that the lines build.
pub parse_collapsed_to_tree-some :
    (text : String) {t : FlameNode}
    → parse_collapsed_to_tree text ≡ some t
    → add_lines (split 10 text) empty_root ≡ t
unfolding parse_collapsed_to_tree
parse_collapsed_to_tree-some text {t} h = has_children-some _ h
  where
    has_children-some : (r : FlameNode) → has_children r ≡ some t → r ≡ t
    has_children-some (node n v nil) e = cc
    has_children-some (node n v (cons c cs)) e = cc

-- `parse_line` decides, so a list with no counterexample has none.
All-of_no_counterexample :
    (lines : List String)
    → ¬ ¬ All (λ line. parse_line line ≡ none) lines
    → All (λ line. parse_line line ≡ none) lines
All-of_no_counterexample [] h = tt
All-of_no_counterexample (line ∷ lines) h = elim (Option-cases (parse_line line)) [
  | inl p ↦ (p, All-of_no_counterexample lines (λ k. h (λ a. k a.1)))
  | inr (s, p) ↦ absurd (h (λ a. cc (p, a.0)))
]

abbrev frames_of : Option Sample → List String
frames_of none = []
frames_of (some (frames, count)) = frames

update_child-ne-nil :
    (frame : String) (f : FlameNode → FlameNode) (cs : Children) → update_child frame f cs ≢ nil
unfolding update_child
update_child-ne-nil frame f nil h = cc
update_child-ne-nil frame f (cons c cs) h = ground arith

-- `split` returns at least one text, so a stack has a frame.
split-ne-nil : (sep : ℕ) (s : String) → split sep s ≢ []
unfolding split
split-ne-nil sep String.[] h = cc
split-ne-nil sep (String.◌∷◌ c s) h = ground (arith)

add_stack-children :
    (frames : List String) (count : ℕ) (t : FlameNode)
    → (frames ≢ []) ⊎ (children t ≢ nil)
    → children (add_stack frames count t) ≢ nil
unfolding add_stack
add_stack-children [] count (node n v cs) (inl h) = absurd (h refl)
add_stack-children [] count (node n v cs) (inr h) = h
add_stack-children (f ∷ fs) count (node n v cs) h = update_child-ne-nil f (add_stack fs count) cs

with_count-frames :
    (stack : String) (o : Option ℕ) {frames : List String} {count : ℕ}
    → with_count stack o ≡ some (frames, count)
    → frames ≢ []
with_count-frames stack none h e = cc
with_count-frames stack (some n) {frames} h e = split-ne-nil b';' stack (ap frames_of h ∙ e)

cut_line-frames :
    (o : Option (String × String)) {frames : List String} {count : ℕ}
    → cut_line o ≡ some (frames, count)
    → frames ≢ []
unfolding parse_line
cut_line-frames none h e = cc
cut_line-frames (some (stack, rest)) h e = elim (Bool-cases (truthy stack)) [
  | inl p ↦ with_count-frames stack _ (rw p at h) e
  | inr p ↦ cc (p, h)
]

parse_line-frames :
    (line : String) {frames : List String} {count : ℕ}
    → parse_line line ≡ some (frames, count)
    → frames ≢ []
unfolding parse_line
parse_line-frames line h = cut_line-frames (split_last 32 (trim line)) h

add_lines-children :
    (lines : List String) (t : FlameNode)
    → (children t ≢ nil) ⊎ ¬ All (λ line. parse_line line ≡ none) lines
    → children (add_lines lines t) ≢ nil
unfolding add_lines
add_lines-children [] t (inl h) = h
add_lines-children [] t (inr h) = absurd (h tt)
add_lines-children (line ∷ lines) t h = elim (Option-cases (parse_line line)) [
  | inl p ↦ rw (p) (add_lines-children lines t (skip p h))
  | inr ((frames, count), p) ↦ rw (p) (
      add_lines-children lines (add_stack frames count t)
        (inl (add_stack-children frames count t (inl (parse_line-frames line p)))))
]
  where
    skip :
        parse_line line ≡ none
        → (children t ≢ nil) ⊎ ¬ All (λ l. parse_line l ≡ none) (line ∷ lines)
        → (children t ≢ nil) ⊎ ¬ All (λ l. parse_line l ≡ none) lines
    skip p (inl k) = inl k
    skip p (inr k) = inr (λ a. k (p, a))

add_lines-none :
    (lines : List String) (t : FlameNode)
    → All (λ line. parse_line line ≡ none) lines
    → add_lines lines t ≡ t
unfolding add_lines
add_lines-none [] t h = refl
add_lines-none (line ∷ lines) t (p, h) = rw p (add_lines-none lines t h)

has_children-none : (t : FlameNode) → has_children t ≡ none → children t ≡ nil
has_children-none (node n v nil) h = refl
has_children-none (node n v (cons c cs)) h = cc

-- There is no tree exactly if no line is a stack with a positive count.
pub parse_collapsed_to_tree-none_iff :
    (text : String)
    → (parse_collapsed_to_tree text ≡ none) ↔ All (λ line. parse_line line ≡ none) (split 10 text)
unfolding parse_collapsed_to_tree
parse_collapsed_to_tree-none_iff text = (
  λ h.
      All-of_no_counterexample (split 10 text)
        (λ k. add_lines-children (split 10 text) empty_root (inr k) (has_children-none _ h)),
  λ a. rw (add_lines-none (split 10 text) empty_root a),
)
