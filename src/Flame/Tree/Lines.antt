-- ===== src/Flame/Tree/Lines.antt =====
-- The collapsed format that parseCollapsedToTree reads: a printed line is read back.
use Prim.Native.Char.{code}
use Prim.Native.String
use Prim.Native.String.append
use Prim.Native.String.{String}
use mini_drop_test.Base.{
  ℕ, ◌+◌, ◌-◌, ◌*◌, ◌<◌, ◌≡◌, refl, true, not, none, some, List, [], ◌∷◌, ◌==◌, truthy, split,
  split_last, join, show, is_space, All, arith, ap, ◌∙◌, map, sum_by, ◌≢◌,
}
use mathlib.Core.Path.{subst}
use mini_drop_test.Base.Text.Chars.{AllCodes, AllCodes-weaken}
use mini_drop_test.Base.Text.Trim.{
  StartsPlain, StartsPlain-append, StartsPlain-truthy, trim-append, trim_end-cons, trim_end_plain,
  trim_start_plain,
}
use mini_drop_test.Base.Text.Split.{Lacks, Lacks-append, Lacks-join, split-join, split_last-append}
use mini_drop_test.Base.Text.Show.{
  is_digit, digits_value, show-AllCodes, digits_value-show, truthy-show,
}
use mini_drop_test.Flame.Tree.{
  Sample, parse_line, cut_line, with_count, parse_count, positive, signed, digits_from, FlameNode,
  parse_collapsed_to_tree,
}
use mini_drop_test.Flame.Tree.Paths.{value_at, hits, value_at-parse_collapsed_to_tree}
use mini_drop_test.Flame.Tree.Outcome.{parse_collapsed_to_tree-none_iff}

-- A stack in the collapsed format: the frames with `;` between them, a space and the count
abbrev pub print_line : Sample → String
print_line (frames, count) = String.◌++◌ (join ";" frames) (String.◌∷◌ " " (show count))

-- A frame may hold spaces, but no `;`, and the line must not start with white space.
abbrev pub IsPrintable : Sample → Type 0
IsPrintable ([], count) = ⊥
IsPrintable (s ∷ ss, count) = StartsPlain s × All (Lacks b';') (s ∷ ss) × (0 < count)

digits_from-digits :
    (acc : ℕ) (s : String) → AllCodes is_digit s → digits_from acc s ≡ digits_value acc s
unfolding digits_from digits_value
digits_from-digits acc String.[] h = refl
digits_from-digits acc (String.◌∷◌ c s) (h, hs) =
    rw (h) (digits_from-digits (acc * 10 + (code c - 48)) s hs)

digit-not_space : (c : ℕ) → is_digit c ≡ true → not (is_space c) ≡ true
digit-not_space c h = ground arith

digit-lacks_space : (c : ℕ) → is_digit c ≡ true → not (c == 32) ≡ true
digit-lacks_space c h = ground arith

signed_digits :
    (s : String) → truthy s ≡ true → AllCodes is_digit s → signed s ≡ some (digits_value 0 s)
unfolding digits_value digits_from
signed_digits String.[] h g = cc
signed_digits (String.◌∷◌ c s) h (g, gs) =
    ground (arith, digits_from-digits 0 (String.◌∷◌ c s) (g, gs))

StartsPlain-digits : (s : String) → truthy s ≡ true → AllCodes is_digit s → StartsPlain s
StartsPlain-digits String.[] h g = cc h
StartsPlain-digits (String.◌∷◌ c s) h (g, gs) = ground arith

parse_count-show : (n : ℕ) → 0 < n → parse_count (show n) ≡ some n
unfolding parse_count
parse_count-show n h =
    ap (λ s. positive (signed s))
      (trim_start_plain (show n) (StartsPlain-digits (show n) (truthy-show n h) (show-AllCodes n)))
    ∙ ap positive (signed_digits (show n) (truthy-show n h) (show-AllCodes n))
    ∙ ap (λ m. positive (some m)) (digits_value-show n)
    ∙ ground arith

StartsPlain-join : (s : String) (ss : List String) → StartsPlain s → StartsPlain (join ";" (s ∷ ss))
unfolding join
StartsPlain-join s [] h = h
StartsPlain-join s (t ∷ ss) h = StartsPlain-append s _ h

cut_line_printed :
    (stack : String) (n : ℕ)
    → truthy stack ≡ true
    → 0 < n
    → cut_line (some (stack, show n)) ≡ some (split b';' stack, n)
unfolding cut_line
cut_line_printed stack n h g = rw (h) (ap (with_count stack) (parse_count-show n g))

-- Reading a printed stack gives its frames and its count again, where the count is positive, no
-- frame holds a `;`, and the first frame is not empty and does not start with white space.
pub parse_line-print_line :
    (sample : Sample) → IsPrintable sample → parse_line (print_line sample) ≡ some sample
unfolding parse_line
parse_line-print_line ([], count) h = elim h [ ]
parse_line-print_line (s ∷ ss, count) (plain, lacks, h) =
    let line = join ";" (s ∷ ss) in
    let starts = StartsPlain-join s ss plain in
    let digits_plain =
      trim_end_plain (show count)
        (AllCodes-weaken is_digit _ digit-not_space (show count) (show-AllCodes count)) in
    let no_space =
      AllCodes-weaken is_digit _ digit-lacks_space (show count) (show-AllCodes count) in
    ap (λ t. cut_line (split_last 32 t))
      (trim-append line (String.◌∷◌ " " (show count)) starts refl
        (trim_end-cons " " (show count) (truthy-show count h) digits_plain))
    ∙ ap cut_line (split_last-append " " line (show count) no_space)
    ∙ cut_line_printed line count (StartsPlain-truthy line starts) h
    ∙ ap (λ frames. some (frames, count)) (split-join ";" s ss lacks)

-- The text of a list of stacks, one on each line
abbrev pub print_text : List Sample → String
print_text samples = join "\n" (map print_line samples)

-- A frame that holds no line end
abbrev pub OneLine : Sample → Type 0
OneLine (frames, count) = All (Lacks b'\n') frames

digit-lacks_newline : (c : ℕ) → is_digit c ≡ true → not (c == b'\n') ≡ true
digit-lacks_newline c h = ground arith

Lacks-print_line : (sample : Sample) → OneLine sample → Lacks b'\n' (print_line sample)
Lacks-print_line (frames, count) h =
    Lacks-append b'\n' (join ";" frames) (String.◌∷◌ " " (show count))
      (Lacks-join b'\n' ";" frames (refl, tt) h)
      (refl, AllCodes-weaken is_digit _ digit-lacks_newline (show count) (show-AllCodes count))

Lacks-print_lines :
    (samples : List Sample) → All OneLine samples → All (Lacks b'\n') (map print_line samples)
Lacks-print_lines [] h = tt
Lacks-print_lines (s ∷ ss) (h, hs) = (Lacks-print_line s h, Lacks-print_lines ss hs)

sum_by-print_lines :
    (path : List String) (samples : List Sample)
    → All IsPrintable samples
    → sum_by (λ line. hits path (parse_line line)) (map print_line samples)
      ≡ sum_by (λ sample. hits path (some sample)) samples
sum_by-print_lines path [] h = refl
sum_by-print_lines path (s ∷ ss) (h, hs) =
    rw (parse_line-print_line s h)
      (ap (λ n. hits path (some s) + n) (sum_by-print_lines path ss hs))

-- The tree of a printed profile holds at each path the sum of the counts of the stacks with just
-- that path, where the stacks are printable and hold no line end.
pub value_at-print_text :
    (s : Sample) (ss : List Sample) (t : FlameNode) (path : List String)
    → All IsPrintable (s ∷ ss)
    → All OneLine (s ∷ ss)
    → parse_collapsed_to_tree (print_text (s ∷ ss)) ≡ some t
    → value_at path t ≡ sum_by (λ sample. hits path (some sample)) (s ∷ ss)
value_at-print_text s ss t path h g e =
    value_at-parse_collapsed_to_tree (print_text (s ∷ ss)) t path e
    ∙ ap (sum_by (λ line. hits path (parse_line line)))
        (split-join "\n" (print_line s) (map print_line ss) (Lacks-print_lines (s ∷ ss) g))
    ∙ sum_by-print_lines path (s ∷ ss) h

-- A printed profile with at least one stack has a tree, where its stacks are printable and hold no
-- line end.
pub parse_collapsed_to_tree-print_text :
    (s : Sample) (ss : List Sample)
    → All IsPrintable (s ∷ ss)
    → All OneLine (s ∷ ss)
    → parse_collapsed_to_tree (print_text (s ∷ ss)) ≢ none
parse_collapsed_to_tree-print_text s ss (h, hs) g e =
    let lines =
      subst (All (λ line. parse_line line ≡ none))
        (split-join "\n" (print_line s) (map print_line ss) (Lacks-print_lines (s ∷ ss) g))
        ((parse_collapsed_to_tree-none_iff (print_text (s ∷ ss))).0 e) in
    cc (lines.0, parse_line-print_line s h)
