-- ===== src/Flame/Tree/Tests.antt =====
-- The trees of small inputs.
use mathlib.Core.List.{Permᴰ}
use mini_drop_test.Base.{
  ◌≡◌, refl, some, List, [], ◌∷◌, filter, sum_by, ◌==◌, split, All, String, true, arith, join, show,
}
use mini_drop_test.Flame.Tree.{
  FlameNode, node, nil, cons, parse_line, parse_collapsed_to_tree, FlatItem, ranked, Sample,
}
use mini_drop_test.Base.Text.Split.{Lacks, lacks, Lacks-lacks}
use mini_drop_test.Flame.Tree.Lines.{
  print_line, print_text, IsPrintable, OneLine, parse_line-print_line, value_at-print_text,
}
use mini_drop_test.Flame.Tree.Paths.{value_at, hits, value_at-parse_collapsed_to_tree}
use mini_drop_test.Flame.Tree.Siblings.{IsProper, parse_collapsed_to_tree-IsProper}

abbrev text : String
text = "main;read 3\n\nmain;write -2\n main;read 4 \nmain 5\nbroken"

abbrev tree : FlameNode
tree = node "all" 0 (cons (node "main" 5 (cons (node "read" 7 nil) nil)) nil)

parsed : parse_collapsed_to_tree text ≡ some tree
unfolding parse_collapsed_to_tree
parsed = refl

abbrev swapped : String
swapped = "\nmain;read 3\nmain;write -2\n main;read 4 \nmain 5\nbroken"

swapped_parsed : parse_collapsed_to_tree swapped ≡ some tree
unfolding parse_collapsed_to_tree
swapped_parsed = refl

value_at_example :
    value_at ("main" ∷ "read" ∷ []) tree
    ≡ sum_by (λ line. hits ("main" ∷ "read" ∷ []) (parse_line line)) (split 10 text)
value_at_example = value_at-parse_collapsed_to_tree text tree ("main" ∷ "read" ∷ []) parsed

lines_swapped : Permᴰ (split 10 text) (split 10 swapped)
unfolding split
lines_swapped = Permᴰ.swap refl refl

IsProper_example : IsProper tree
IsProper_example = parse_collapsed_to_tree-IsProper text tree parsed

abbrev items : List FlatItem
items =
    record { func = "a"; self = 2 }
    ∷ record { func = "b"; self = 0 }
    ∷ record { func = "c"; self = 9 }
    ∷ record { func = "d"; self = 2 }
    ∷ []

ranked-twos : sum_by (λ item. item.self) (filter (λ item. item.self == 2) (ranked items)) ≡ 4
unfolding ranked
ranked-twos = refl

abbrev printed : List Sample
printed = ("main" ∷ "read all" ∷ [], 3) ∷ ("main" ∷ [], 12) ∷ ("main" ∷ "read all" ∷ [], 4) ∷ []

lacks_lem : (s : String) → lacks b';' s ≡ true → lacks b'\n' s ≡ true → Lacks b';' s × Lacks b'\n' s
lacks_lem s h g = (Lacks-lacks b';' s h, Lacks-lacks b'\n' s g)

printable : All IsPrintable printed
printable = (
  (refl, ((lacks_lem "main" refl refl).0, ((lacks_lem "read all" refl refl).0, tt)), omega arith),
  (
    (refl, ((lacks_lem "main" refl refl).0, tt), omega arith),
    (
      (
        refl,
        ((lacks_lem "main" refl refl).0, ((lacks_lem "read all" refl refl).0, tt)),
        omega arith,
      ),
      tt,
    ),
  ),
)

one_line : All OneLine printed
one_line = (
  ((lacks_lem "main" refl refl).1, ((lacks_lem "read all" refl refl).1, tt)),
  (
    ((lacks_lem "main" refl refl).1, tt),
    (((lacks_lem "main" refl refl).1, ((lacks_lem "read all" refl refl).1, tt)), tt),
  ),
)

abbrev printed_tree : FlameNode
printed_tree = node "all" 0 (cons (node "main" 12 (cons (node "read all" 7 nil) nil)) nil)

printed_lines : print_text printed ≡ "main;read all 3\nmain 12\nmain;read all 4"
unfolding join show
printed_lines = refl

printed_parsed : parse_collapsed_to_tree (print_text printed) ≡ some printed_tree
unfolding parse_collapsed_to_tree join show
printed_parsed = refl

print_line_example :
    parse_line (print_line ("main" ∷ "read all" ∷ [], 3)) ≡ some ("main" ∷ "read all" ∷ [], 3)
print_line_example = parse_line-print_line ("main" ∷ "read all" ∷ [], 3) printable.0

print_text_example :
    value_at ("main" ∷ "read all" ∷ []) printed_tree
    ≡ sum_by (λ sample. hits ("main" ∷ "read all" ∷ []) (some sample)) printed
print_text_example =
    value_at-print_text ("main" ∷ "read all" ∷ [], 3)
      (("main" ∷ [], 12) ∷ ("main" ∷ "read all" ∷ [], 4) ∷ []) printed_tree
      ("main" ∷ "read all" ∷ []) printable one_line printed_parsed
