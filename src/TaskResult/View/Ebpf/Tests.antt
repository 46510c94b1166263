-- ===== src/TaskResult/View/Ebpf/Tests.antt =====
-- A scheduling probe with counts of reads.
use mini_drop_test.Base.{◌≡◌, refl, none, some, [], ◌∷◌, Number, int, pos}
use mini_drop_test.TaskResult.View.Ebpf.{EbpfData, ebpf_content}

abbrev five : Number
five = int (pos 5)

abbrev sched : EbpfData
sched = record {
  total_events = some five;
  total_reads = some five;
  read_count = none;
  total_writes = none;
  write_count = none;
  probe_type = some "sched";
  avg_latency_ms = some five;
  latency_avg_us = none;
  max_latency_ms = none;
  latency_max_us = none;
  total_bytes = some five;
  read_bytes = none;
  write_bytes = none;
  top_devices = none;
  by_disk = none;
  top_processes = none;
  by_process = none;
  summary = "";
}

sched_figures :
    (ebpf_content (λ a b. a) (λ a. a) sched).figures_shown ≡ ("总事件数", five) ∷ ("平均调度延迟", five) ∷ []
unfolding ebpf_content
sched_figures = refl
