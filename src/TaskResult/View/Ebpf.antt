-- ===== src/TaskResult/View/Ebpf.antt =====
-- The metrics of the eBPF panel and the panel itself. Arithmetic of numbers that need not be whole
-- is the parameters `add` and `thousandth`; the fields of the artifact are numbers where they are there.
pub mod Laws
mod Tests
use Prim.Native.String.{◌++◌}
use mini_drop_test.Base.{
  ℕ, zero, suc, ◌≡◌, ◌⊎◌, String, Bool, true, false, not, ◌&&◌, ◌||◌, Option, none, some, List, [],
  ◌∷◌, map, if◌then◌else◌, truthy, or_text, or_else, Number, int, ℤ, pos, is_positive, value_or,
  str_eq, is_empty, num_or, All, All-filter, arith,
}
use mathlib.Core.List
use mini_drop_test.Domain.{HotmethodTask}
use mini_drop_test.TaskResult.Panels.{ebpf, empty_panel}

pub record DiskStats : Type 0 where
  pub count : Number
  pub bytes : Number
  pub latency_avg : Number

pub record Device : Type 0 where
  pub device : String
  pub count : Number
  pub bytes : Number
  pub latency_avg_ms : Number

pub record ProcessStats : Type 0 where
  pub pid : Option String
  pub count : Number
  pub bytes : Number

pub record ProcessRow : Type 0 where
  pub process : String
  pub pid : String
  pub count : Number
  pub bytes : Number

-- `top_processes` is an array of rows or an object.
pub data Processes : Type 0 where
  process_array : List ProcessRow → Processes
  process_object : List (String × ProcessStats) → Processes

pub record EbpfData : Type 0 where
  pub total_events : Option Number
  pub total_reads : Option Number
  pub read_count : Option Number
  pub total_writes : Option Number
  pub write_count : Option Number
  pub probe_type : Option String
  pub avg_latency_ms : Option Number
  pub latency_avg_us : Option Number
  pub max_latency_ms : Option Number
  pub latency_max_us : Option Number
  pub total_bytes : Option Number
  pub read_bytes : Option Number
  pub write_bytes : Option Number
  pub top_devices : Option (List Device)
  pub by_disk : Option (List (String × DiskStats))
  pub top_processes : Option Processes
  pub by_process : Option (List (String × ProcessStats))
  pub summary : String

abbrev zero_number : Number
zero_number = int (pos 0)

-- `a ?? b`
abbrev coalesce : Option Number → Number → Number
coalesce none b = b
coalesce (some a) b = a

unfoldable pub read_count : EbpfData → Number
read_count d = coalesce d.total_reads (coalesce d.read_count zero_number)

unfoldable pub write_count : EbpfData → Number
write_count d = coalesce d.total_writes (coalesce d.write_count zero_number)

unfoldable pub is_sched_probe : EbpfData → Bool
is_sched_probe d = str_eq (or_else d.probe_type "io") "sched"

abbrev process_row : String × ProcessStats → ProcessRow
process_row (process, value) = record {
  process = process;
  pid = or_else value.pid process;
  count = num_or value.count zero_number;
  bytes = num_or value.bytes zero_number;
}

processes_of : Option Processes → Option (List (String × ProcessStats)) → List ProcessRow
processes_of none by_process = map process_row (value_or [] by_process)
processes_of (some (process_array rows)) by_process = rows
processes_of (some (process_object entries)) by_process = map process_row entries

unfoldable pub top_processes : EbpfData → List ProcessRow
unfolding processes_of
top_processes d = processes_of d.top_processes d.by_process

-- A figure of the panel, if it is shown
abbrev figure : Bool → String → Number → List (String × Number)
figure shown title value = if shown then (title, value) ∷ [] else []

abbrev events_figure : Option Number → List (String × Number)
events_figure none = []
events_figure (some n) = ("总事件数", n) ∷ []

-- The content of the panel: the figures, the devices, the processes with the title of their table
-- and whether it has bytes, and the summary
pub record EbpfContent : Type 0 where
  pub figures_shown : List (String × Number)
  pub devices : List Device
  pub process_title : String
  pub processes : List ProcessRow
  pub with_bytes : Bool
  pub summary : String

pub data EbpfTab : Type 0 where
  ebpf_spinner : EbpfTab
  ebpf_shown : EbpfContent → EbpfTab
  ebpf_missing : String → EbpfTab

module _ (add : Number → Number → Number) (thousandth : Number → Number) where
  unfoldable pub avg_latency_ms : EbpfData → Number
  avg_latency_ms d = coalesce d.avg_latency_ms (thousandth (coalesce d.latency_avg_us zero_number))

  unfoldable pub max_latency_ms : EbpfData → Number
  max_latency_ms d = coalesce d.max_latency_ms (thousandth (coalesce d.latency_max_us zero_number))

  unfoldable pub total_bytes : EbpfData → Number
  total_bytes d =
      coalesce d.total_bytes
        (add (coalesce d.read_bytes zero_number) (coalesce d.write_bytes zero_number))

  -- `Number(x) || 0`
  abbrev disk_row : String × DiskStats → Device
  disk_row (device, value) = record {
    device = device;
    count = num_or value.count zero_number;
    bytes = num_or value.bytes zero_number;
    latency_avg_ms = thousandth (num_or value.latency_avg zero_number);
  }

  unfoldable pub top_devices : EbpfData → List Device
  top_devices d = elim d.top_devices [
    | some devices ↦ devices
    | none ↦ map disk_row (value_or [] d.by_disk)
  ]

  unfoldable pub figures : EbpfData → List (String × Number)
  unfolding read_count write_count avg_latency_ms max_latency_ms total_bytes is_sched_probe
  figures d =
      let sched = is_sched_probe d in
      List.◌++◌ (events_figure d.total_events) (
        List.◌++◌ (figure (not sched && is_positive (read_count d)) "读操作" (read_count d)) (
          List.◌++◌ (figure (not sched && is_positive (write_count d)) "写操作" (write_count d)) (
            List.◌++◌
              (figure (is_positive (avg_latency_ms d)) (if sched then "平均调度延迟" else "平均延迟")
                (avg_latency_ms d))
              (List.◌++◌
                (figure (is_positive (max_latency_ms d)) (if sched then "最大调度延迟" else "最大延迟")
                  (max_latency_ms d))
                (figure (not sched && is_positive (total_bytes d)) "总字节数" (total_bytes d))))))

  unfoldable pub ebpf_content : EbpfData → EbpfContent
  unfolding figures top_devices top_processes is_sched_probe
  ebpf_content d =
      let sched = is_sched_probe d in
      record {
        figures_shown = figures d;
        devices = if sched then [] else top_devices d;
        process_title = if sched then "热点调度目标" else "热点进程";
        processes = top_processes d;
        with_bytes = not sched;
        summary = d.summary;
      }

  abbrev loaded_tab : Option HotmethodTask → Option EbpfData → EbpfTab
  unfolding ebpf_content empty_panel
  loaded_tab task none = ebpf_missing (empty_panel task ebpf)
  loaded_tab task (some d) = ebpf_shown (ebpf_content d)

  unfoldable pub ebpf_tab : Option HotmethodTask → Bool → Option EbpfData → EbpfTab
  unfolding loaded_tab
  ebpf_tab task loading data' = if loading then ebpf_spinner else loaded_tab task data'
