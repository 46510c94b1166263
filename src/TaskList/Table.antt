-- ===== src/TaskList/Table.antt =====
-- web/src/pages/TaskList.tsx: what the counters, the rows of the table and its two buttons are made
-- of.
use Prim.Native.String.{◌++◌}
use mini_drop_test.Base.{
  ℕ, ◌+◌, ◌-◌, ◌/◌, String, ◌&&◌, ◌||◌, Option, none, some, List, [], ◌∷◌, truthy, if◌then◌else◌,
  ◌==◌, leb, filter, length, is_empty,
}
use mathlib.Core.List
use mini_drop_test.Domain.{HotmethodTask}
use mini_drop_test.Creation.{result_address}
use mini_drop_test.TaskList.{ListState, page_size}

pub record Stats : Type 0 where
  pub total : ℕ
  pub running : ℕ
  pub done : ℕ
  pub failed : ℕ

unfoldable pub stats : ListState → Stats
stats s = record {
  total = s.total;
  running = length (filter (λ task. leb 1 task.status && leb task.status 3) s.all_tasks);
  done = length (filter (λ task. task.status == 4) s.all_tasks);
  failed = length (filter (λ task. task.status == 5 || task.status == 6) s.all_tasks);
}

-- `Math.max(1, Math.ceil(total / pageSize))`
unfoldable pub total_pages : ListState → ℕ
total_pages s =
    let pages = (s.total + (page_size - 1)) / page_size in if leb 1 pages then pages else 1

-- The pages that the two buttons load, where they are enabled
unfoldable pub previous_page : ListState → Option ℕ
previous_page s = if leb s.page 1 then none else some (s.page - 1)

unfoldable pub next_page : ListState → Option ℕ
unfolding total_pages
next_page s = if leb (total_pages s) s.page then none else some (s.page + 1)

-- The rows of the table's body
pub data Row : Type 0 where
  loading_row : Row
  error_row : String → Row
  empty_row : Row
  task_row : HotmethodTask → Row

unfoldable pub table_rows : ListState → List Row
table_rows s =
    let tasks : List Row = List.map task_row s.tasks in
    if s.loading
    then loading_row ∷ []
    else if truthy s.error
    then error_row s.error ∷ tasks
    else if is_empty s.tasks
    then empty_row ∷ []
    else tasks

unfoldable pub details_address : HotmethodTask → String
details_address task =
    if task.type == 2 then "/continuous?tid=" ++ task.tid else result_address task.tid
