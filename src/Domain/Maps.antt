-- ===== src/Domain/Maps.antt =====
-- web/src/domain.ts: the label tables, and the fallback with which the pages read them.
use mini_drop_test.Base.{ℕ, zero, suc, String, Option, none, some, List, [], ◌∷◌, lookup}

pub record Badge : Type 0 where
  pub label : String
  pub color : String

abbrev badge : String → String → Option Badge
badge label color = some (record { label = label; color = color })

unfoldable pub status_map : ℕ → Option Badge
status_map zero = badge "新建" "rgba(255,255,255,0.45)"
status_map (suc zero) = badge "已派发" "#60a5fa"
status_map (suc (suc zero)) = badge "执行中" "#60a5fa"
status_map (suc (suc (suc zero))) = badge "上传中" "#fbbf24"
status_map (suc (suc (suc (suc zero)))) = badge "成功" "#4ade80"
status_map (suc (suc (suc (suc (suc zero))))) = badge "失败" "#f87171"
status_map (suc (suc (suc (suc (suc (suc zero)))))) = badge "超时" "#f87171"
status_map _ = none

unfoldable pub analysis_map : ℕ → Option Badge
analysis_map zero = badge "待分析" "rgba(255,255,255,0.45)"
analysis_map (suc zero) = badge "分析中" "#60a5fa"
analysis_map (suc (suc zero)) = badge "已完成" "#4ade80"
analysis_map (suc (suc (suc zero))) = badge "失败" "#f87171"
analysis_map _ = none

-- `map[n] || map[0]`, as the pages read the two tables
abbrev pub or_badge : Option Badge → Option Badge → Option Badge
or_badge none default = default
or_badge (some b) default = some b

unfoldable pub profiler_type_map : ℕ → Option String
profiler_type_map zero = some "perf"
profiler_type_map (suc zero) = some "async-profiler"
profiler_type_map (suc (suc zero)) = some "pprof"
profiler_type_map (suc (suc (suc zero))) = some "bpftrace"
profiler_type_map (suc (suc (suc (suc zero)))) = some "memray"
profiler_type_map (suc (suc (suc (suc (suc zero))))) = some "java-heap"
profiler_type_map (suc (suc (suc (suc (suc (suc zero)))))) = some "resource"
profiler_type_map _ = none

abbrev task_types : List (ℕ × String)
task_types =
    (0, "CPU Profiling")
    ∷ (1, "Java Profiling")
    ∷ (2, "Continuous Profiling")
    ∷ (4, "Python Memray")
    ∷ (5, "Resource Analysis")
    ∷ (6, "Biosnoop (eBPF)")
    ∷ (7, "BW Sync")
    ∷ (8, "Namespace")
    ∷ (9, "Assembly")
    ∷ (10, "pprof CPU")
    ∷ (11, "pprof Heap")
    ∷ (12, "Java Heap")
    ∷ []

unfoldable pub task_type_map : ℕ → Option String
task_type_map n = lookup n task_types
