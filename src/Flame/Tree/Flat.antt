-- ===== src/Flame/Tree/Flat.antt =====
-- The fallback tree from top.json: its order and its weight.
use mini_drop_test.Base.{
  ℕ, ◌<◌, ◌≡◌, refl, ◌∙◌, List, [], ◌∷◌, filter, sum_by, sum_by-perm, sort-perm, sort-IsSorted,
  filter-sort, IsSorted, arith, ltb, ◌==◌,
}
use mini_drop_test.Flame.Tree.{FlatItem, larger, ranked, leaves, flat_data_to_tree}
use mini_drop_test.Flame.Tree.Weight.{weight, weights}

sum_self-positive :
    (items : List FlatItem)
    → sum_by (λ item. item.self) (filter (λ item. ltb 0 item.self) items)
      ≡ sum_by (λ item. item.self) items
sum_self-positive [] = refl
sum_self-positive (item ∷ items) = ground (arith, sum_self-positive items)

weights-leaves : (items : List FlatItem) → weights (leaves items) ≡ sum_by (λ item. item.self) items
unfolding weight weights
weights-leaves [] = refl
weights-leaves (item ∷ items) = omega (arith, weights-leaves items)

-- The fallback tree weighs as much as all the items' own counts together.
pub weight-flat_data_to_tree :
    (items : List FlatItem) → weight (flat_data_to_tree items) ≡ sum_by (λ item. item.self) items
unfolding flat_data_to_tree ranked weight
weight-flat_data_to_tree items = omega (
  arith,
  weights-leaves (ranked items),
  sum_by-perm (λ (item : FlatItem). item.self)
      (sort-perm larger (filter (λ item. ltb 0 item.self) items)),
  sum_self-positive items,
)

filter-positive :
    (n : ℕ) (items : List FlatItem)
    → 0 < n
    → filter (λ item. item.self == n) (filter (λ item. ltb 0 item.self) items)
      ≡ filter (λ item. item.self == n) items
filter-positive n [] h = refl
filter-positive n (item ∷ items) h = ground (arith, filter-positive n items h)

-- The items of the fallback tree stand in falling order of their counts, and for every count above
-- 0 the items with that count are exactly those of the input, in their order.
pub ranked-order :
    (items : List FlatItem)
    → IsSorted larger (ranked items)
      × ((n : ℕ)
          → 0 < n
          → filter (λ item. item.self == n) (ranked items) ≡ filter (λ item. item.self == n) items)
unfolding ranked
ranked-order items = (
  sort-IsSorted larger (λ a b h. ground arith) (filter (λ item. ltb 0 item.self) items),
  λ n h.
      filter-sort larger (λ item. item.self == n) (λ a b p q. ground arith)
        (filter (λ item. ltb 0 item.self) items)
      ∙ filter-positive n items h,
)
