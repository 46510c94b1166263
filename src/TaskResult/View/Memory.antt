-- ===== src/TaskResult/View/Memory.antt =====
-- The panels of pprof and of memory and resources. `J` is the type of the resource artifact, whose
-- text is the parameter `show_json`.
pub mod Laws
mod Tests
use Prim.Native.String.{◌++◌}
use mini_drop_test.Base.{
  ℕ, zero, suc, ◌≡◌, String, Bool, true, false, not, ◌&&◌, ◌||◌, Option, none, some, List, [], ◌∷◌,
  map, if◌then◌else◌, truthy, is_empty, is_some, value_or, str_eq, length, take, join, sum_by, show,
  head?,
}
use mathlib.Core.List
use mathlib.Core.Option
use mini_drop_test.Domain.{HotmethodTask}
use mini_drop_test.TaskResult.Panels.{pprof, memory, empty_panel}
use mini_drop_test.TaskResult.Bytes.{format_bytes}
use mini_drop_test.TaskResult.Rows.{CpuRow, HeapProfileRow, HeapRow}

pub record Leak : Type 0 where
  pub leak_type : String
  pub size : ℕ
  pub count : ℕ
  pub stack : Option (List String)

pub record MemoryData : Type 0 where
  pub analysis_kind : String
  pub total_leaked_bytes : ℕ
  pub total_leaked_blocks : ℕ
  pub summary : String
  pub leaks : Option (List Leak)

pub record MemoryInput : Type 0 where
  pub memray_loading : Bool
  pub memray_html_url : String
  pub memray_error : String
  pub memory_data : Option MemoryData
  pub heap_rows : List HeapRow
  pub resource : Option String  -- the printed summary of the resources

-- `Array.isArray(memoryData?.leaks) ? memoryData.leaks : []`
unfoldable pub leak_rows : Option MemoryData → List Leak
leak_rows none = []
leak_rows (some m) = value_or [] m.leaks

abbrev stack_text : Option (List String) → String
unfolding join
stack_text none = "-"
stack_text (some frames) = join " -> " (take 4 frames)

unfoldable pub leak_row : Leak → String × String × ℕ × String
unfolding stack_text format_bytes
leak_row leak = (leak.leak_type, format_bytes leak.size, leak.count, stack_text leak.stack)

unfoldable pub heap_table_row : HeapRow → String × ℕ × String
unfolding format_bytes
heap_table_row row = (row.name, row.count, format_bytes row.bytes)

-- The figures of the leaks, which an artifact of memray has not
abbrev is_memray : MemoryData → Bool
is_memray m = str_eq m.analysis_kind "memray_artifact"

unfoldable pub leak_figures : Option MemoryData → List (String × String)
unfolding format_bytes
leak_figures none = []
leak_figures (some m) =
    if is_memray m
    then []
    else ("泄漏字节", format_bytes m.total_leaked_bytes) ∷ ("泄漏块数", show m.total_leaked_blocks) ∷ []

unfoldable pub memory_summary : Option MemoryData → Option String
memory_summary none = none
memory_summary (some m) = if truthy m.summary && not (is_memray m) then some m.summary else none

pub record MemoryContent : Type 0 where
  pub spinner : Bool
  pub frame : Option String
  pub warning : Option String
  pub figures : List (String × String)
  pub summary : Option String
  pub leaks : List (String × String × ℕ × String)
  pub heap : List (String × ℕ × String)
  pub resource : Option String

pub data MemoryTab : Type 0 where
  memory_shown : MemoryContent → MemoryTab
  memory_missing : String → MemoryTab

unfoldable pub memory_content : MemoryInput → MemoryContent
unfolding leak_rows leak_row heap_table_row leak_figures memory_summary
memory_content d = record {
  spinner = d.memray_loading;
  frame = if not d.memray_loading && truthy d.memray_html_url then some d.memray_html_url else none;
  warning =
      if not d.memray_loading && not (truthy d.memray_html_url) && truthy d.memray_error
      then some d.memray_error
      else none;
  figures = leak_figures d.memory_data;
  summary = memory_summary d.memory_data;
  leaks = map leak_row (leak_rows d.memory_data);
  heap = map heap_table_row d.heap_rows;
  resource = d.resource;
}

abbrev pub has_memory : MemoryInput → Bool
has_memory d =
    d.memray_loading
    || truthy d.memray_html_url
    || is_some d.memory_data
    || not (is_empty d.heap_rows)
    || is_some d.resource

unfoldable pub memory_tab : Option HotmethodTask → MemoryInput → MemoryTab
unfolding memory_content empty_panel
memory_tab task d =
    if has_memory d
    then memory_shown (memory_content d)
    else memory_missing (empty_panel task memory)

-- The pprof panel: the figures and the rows of the two tables. `seconds` is `toFixed(6)` and `percent`
-- the share with two digits.
module _ (seconds : ℕ → String) (percent : ℕ → ℕ → String) where
  abbrev share : ℕ → ℕ → String
  share flat zero = "-"
  share flat (suc total) = percent flat (suc total) ++ "%"

  abbrev cpu_table_row : ℕ → CpuRow → String × String × String
  cpu_table_row total row = (row.func, seconds row.flat, share row.flat total)

  unfoldable pub cpu_table : List CpuRow → List (String × String × String)
  cpu_table rows = map (cpu_table_row (sum_by (λ row. row.flat) rows)) rows

abbrev flat_space_of : Option HeapProfileRow → ℕ
flat_space_of none = 0
flat_space_of (some row) = row.flat_space

-- The largest flat space, as the panel shows it
unfoldable pub largest_space : List HeapProfileRow → String
unfolding format_bytes
largest_space rows = format_bytes (flat_space_of (head? rows))

abbrev profile_table_row : HeapProfileRow → String × String × String × ℕ × ℕ
unfolding format_bytes
profile_table_row row = (
  row.func,
  format_bytes row.flat_space,
  format_bytes row.cum_space,
  row.flat_objects,
  row.cum_objects,
)

unfoldable pub profile_table : List HeapProfileRow → List (String × String × String × ℕ × ℕ)
unfolding profile_table_row
profile_table = map profile_table_row

pub data PprofTab : Type 0 where
  pprof_spinner : PprofTab
  pprof_tables : List CpuRow → List HeapProfileRow → PprofTab
  pprof_missing : String → PprofTab

unfoldable pub pprof_tab :
    Option HotmethodTask → Bool → List CpuRow → List HeapProfileRow → PprofTab
unfolding empty_panel
pprof_tab task loading cpu heap =
    if loading
    then pprof_spinner
    else if not (is_empty cpu) || not (is_empty heap)
    then pprof_tables cpu heap
    else pprof_missing (empty_panel task pprof)
