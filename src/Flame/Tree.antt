-- ===== src/Flame/Tree.antt =====
-- web/src/components/FlameGraph.tsx: parseCollapsedToTree and flatDataToTree. A missing list of
-- children and an empty one are both `nil`; counts are exact natural numbers.
pub mod Outcome
pub mod Weight
pub mod Paths
pub mod Siblings
pub mod Flat
pub mod Lines
mod Tests
use Prim.Native.Char.{Char, code}
use Prim.Native.String
use Prim.Native.String.{String}
use mini_drop_test.Base.{
  ℕ, zero, suc, ◌+◌, ◌-◌, ◌*◌, Bool, true, false, ◌&&◌, Option, none, some, List, [], ◌∷◌, map, ltb,
  leb, ◌==◌, if◌then◌else◌, truthy, str_eq, trim, trim_start, split, split_last, ℤ, pos, negsuc,
  filter, sort, is_space,
}

mutual
  pub data FlameNode : Type 0 where
    node : String → ℕ → Children → FlameNode

  pub data Children : Type 0 where
    nil : Children
    cons : FlameNode → Children → Children

abbrev pub name : FlameNode → String
name (node n v cs) = n

abbrev pub children : FlameNode → Children
children (node n v cs) = cs

-- The digits at the start of a text, as the number that they write after `acc`
digits_from : ℕ → String → ℕ
digits_from acc String.[] = acc
digits_from acc (String.◌∷◌ c s) =
    let more = digits_from (acc * 10 + (code c - b'0')) s in
    if leb b'0' (code c) && leb (code c) b'9' then more else acc

abbrev starts_with_digit : String → Bool
starts_with_digit String.[] = false
starts_with_digit (String.◌∷◌ c s) = leb b'0' (code c) && leb (code c) b'9'

abbrev digits : String → Option ℕ
digits s = if starts_with_digit s then some (digits_from 0 s) else none

-- `parseInt(s, 10)`, kept where it is positive: NaN, 0 and the negative numbers are all skipped.
abbrev signed : String → Option ℕ
signed String.[] = none
signed (String.◌∷◌ c s) =
    if code c == b'+' then digits s else if code c == b'-' then none else digits (String.◌∷◌ c s)

abbrev positive : Option ℕ → Option ℕ
positive none = none
positive (some n) = if ltb 0 n then some n else none

parse_count : String → Option ℕ
unfolding digits_from trim_start
parse_count s = positive (signed (trim_start s))

-- A stack and its count
abbrev pub Sample : Type 0
Sample = List String × ℕ

abbrev with_count : String → Option ℕ → Option Sample
with_count stack none = none
with_count stack (some count) = some (split b';' stack, count)

-- `lastIndexOf` is 0 or -1, or the line is cut at its last space.
abbrev cut_line : Option (String × String) → Option Sample
unfolding parse_count
cut_line none = none
cut_line (some (stack, rest)) = if truthy stack then with_count stack (parse_count rest) else none

-- One line of the collapsed text: its frames and count, or none where the loop goes on
pub parse_line : String → Option Sample
unfolding parse_count split_last split trim
parse_line raw = cut_line (split_last 32 (trim raw))

-- Updates the first child of that name, or a new one at the end.
pub update_child : String → (FlameNode → FlameNode) → Children → Children
update_child frame f nil = cons (f (node frame 0 nil)) nil
update_child frame f (cons c cs) =
    let rest = update_child frame f cs in
    if str_eq (name c) frame then cons (f c) cs else cons c rest

-- Walks down the frames of a stack, and adds the count to the node where it ends.
pub add_stack : List String → ℕ → FlameNode → FlameNode
unfolding update_child
add_stack [] count (node n v cs) = node n (v + count) cs
add_stack (frame ∷ frames) count (node n v cs) =
    node n v (update_child frame (add_stack frames count) cs)

abbrev pub add_sample : Option Sample → FlameNode → FlameNode
add_sample none root = root
add_sample (some (frames, count)) root = add_stack frames count root

abbrev pub empty_root : FlameNode
empty_root = node "all" 0 nil

pub add_lines : List String → FlameNode → FlameNode
unfolding add_stack parse_line
add_lines [] root = root
add_lines (line ∷ lines) root = add_lines lines (add_sample (parse_line line) root)

abbrev has_children : FlameNode → Option FlameNode
has_children (node n v nil) = none
has_children (node n v (cons c cs)) = some (node n v (cons c cs))

unfoldable pub parse_collapsed_to_tree : String → Option FlameNode
unfolding add_lines split
parse_collapsed_to_tree text = has_children (add_lines (split 10 text) empty_root)

-- An entry of top.json; `Number(item.self) || 0` is a natural number.
pub record FlatItem : Type 0 where
  pub func : String
  pub self : ℕ

-- `b.self - a.self`: the item with the larger count comes first.
abbrev pub larger : FlatItem → FlatItem → Bool
larger a b = ltb b.self a.self

unfoldable pub ranked : List FlatItem → List FlatItem
unfolding sort
ranked items = sort larger (filter (λ item. ltb 0 item.self) items)

abbrev pub leaves : List FlatItem → Children
leaves [] = nil
leaves (item ∷ items) = cons (node item.func item.self nil) (leaves items)

unfoldable pub flat_data_to_tree : List FlatItem → FlameNode
unfolding ranked
flat_data_to_tree items = node "all" 0 (leaves (ranked items))
