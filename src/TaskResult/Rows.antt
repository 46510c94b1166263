-- ===== src/TaskResult/Rows.antt =====
-- The tables of the result page: pprof CPU and heap rows, heap classes, and the sum of the samples.
-- Measures are natural numbers of one unit; `Number(x) || 0` is one of them.
use mini_drop_test.Base.{
  ℕ, ◌≡◌, refl, ◌∙◌, String, Bool, ◌&&◌, ◌||◌, List, [], ◌∷◌, map, ltb, ◌==◌, if◌then◌else◌, sum_by,
  sum_by-perm, sort, sort-perm, sort-IsSorted, IsSorted, arith, or_text, Option, none, some,
  or_else,
}
use mathlib.Core.List.{Permᴰ}
use mini_drop_test.Domain.{TopFunction}

unfoldable pub total_samples : List TopFunction → ℕ
total_samples topn = sum_by (λ item. item.self) topn

pub record CpuRow : Type 0 where
  pub func : String
  pub flat : ℕ

abbrev cpu_row : String × ℕ → CpuRow
cpu_row (func, flat) = record { func = func; flat = flat }

abbrev pub larger_flat : CpuRow → CpuRow → Bool
larger_flat a b = ltb b.flat a.flat

-- `Object.entries(pprofCpuData)`; no data are no rows.
unfoldable pub pprof_cpu_rows : Option (List (String × ℕ)) → List CpuRow
unfolding sort
pprof_cpu_rows none = []
pprof_cpu_rows (some entries) = sort larger_flat (map cpu_row entries)

unfoldable pub pprof_cpu_total : Option (List (String × ℕ)) → ℕ
unfolding pprof_cpu_rows
pprof_cpu_total entries = sum_by (λ row. row.flat) (pprof_cpu_rows entries)

pub record HeapProfileRow : Type 0 where
  pub func : String
  pub flat_space : ℕ
  pub cum_space : ℕ
  pub flat_objects : ℕ
  pub cum_objects : ℕ

-- `b.flat_space - a.flat_space || b.cum_space - a.cum_space`
abbrev pub larger_space : HeapProfileRow → HeapProfileRow → Bool
larger_space a b =
    ltb b.flat_space a.flat_space || (a.flat_space == b.flat_space && ltb b.cum_space a.cum_space)

abbrev pub named : HeapProfileRow → HeapProfileRow
named row = record row { func = or_text row.func "-" }

unfoldable pub pprof_heap_rows : Option (List HeapProfileRow) → List HeapProfileRow
unfolding sort
pprof_heap_rows none = []
pprof_heap_rows (some rows) = sort larger_space (map named rows)

-- The names under which the heap analyzers report a class
pub record HeapClass : Type 0 where
  pub name : Option String
  pub class_name : Option String
  pub class : Option String
  pub count : ℕ
  pub instances : ℕ
  pub bytes : ℕ
  pub total_bytes : ℕ
  pub size : ℕ

pub record HeapRow : Type 0 where
  pub name : String
  pub count : ℕ
  pub bytes : ℕ

abbrev first_positive : ℕ → ℕ → ℕ
first_positive a b = if ltb 0 a then a else b

abbrev heap_row : HeapClass → HeapRow
heap_row row = record {
  name = or_else row.name (or_else row.class_name (or_else row.class "-"));
  count = first_positive row.count row.instances;
  bytes = first_positive row.bytes (first_positive row.total_bytes row.size);
}

abbrev pub larger_bytes : HeapRow → HeapRow → Bool
larger_bytes a b = ltb b.bytes a.bytes

-- `classes`, or `top_classes` where `classes` is no array
unfoldable pub heap_rows : Option (List HeapClass) → Option (List HeapClass) → List HeapRow
unfolding sort
heap_rows (some classes) top_classes = sort larger_bytes (map heap_row classes)
heap_rows none (some top_classes) = sort larger_bytes (map heap_row top_classes)
heap_rows none none = []

sum_flat-cpu_row :
    (entries : List (String × ℕ))
    → sum_by (λ row. row.flat) (map cpu_row entries) ≡ sum_by (λ entry. entry.1) entries
sum_flat-cpu_row [] = refl
sum_flat-cpu_row ((func, flat) ∷ entries) = omega (arith, sum_flat-cpu_row entries)

-- The CPU table is in falling order of the flat value, and its total is that of the profile.
pub pprof_cpu_rows-order :
    (entries : List (String × ℕ))
    → IsSorted larger_flat (pprof_cpu_rows (some entries))
      × (pprof_cpu_total (some entries) ≡ sum_by (λ entry. entry.1) entries)
unfolding pprof_cpu_total pprof_cpu_rows
pprof_cpu_rows-order entries = (
  sort-IsSorted larger_flat (λ a b h. ground arith) (map cpu_row entries),
  sum_by-perm (λ (row : CpuRow). row.flat) (sort-perm larger_flat (map cpu_row entries))
      ∙ sum_flat-cpu_row entries,
)

-- The heap table holds the named rows of the profile, each as often as it is there, ordered by flat
-- space and among rows of equal flat space by cumulative space, both falling.
pub pprof_heap_rows-order :
    (rows : List HeapProfileRow)
    → Permᴰ (pprof_heap_rows (some rows)) (map named rows)
      × IsSorted larger_space (pprof_heap_rows (some rows))
unfolding pprof_heap_rows
pprof_heap_rows-order rows = (
  sort-perm larger_space (map named rows),
  sort-IsSorted larger_space (λ a b h. ground arith) (map named rows),
)
