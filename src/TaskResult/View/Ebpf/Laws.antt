-- ===== src/TaskResult/View/Ebpf/Laws.antt =====
-- What the eBPF panel shows of a scheduling probe.
use mini_drop_test.Base.{◌≤◌, ◌≡◌, refl, true, false, [], arith, length, Number}
use mini_drop_test.TaskResult.View.Ebpf.{EbpfData, figures, is_sched_probe, ebpf_content}

-- The panel of a scheduling probe has no devices and no column of bytes, and none of the figures of
-- reads, writes and bytes: at most three figures are left.
pub ebpf_content-sched :
    (add : Number → Number → Number) (thousandth : Number → Number) (d : EbpfData)
    → is_sched_probe d ≡ true
    → ((ebpf_content add thousandth d).devices ≡ [])
      × ((ebpf_content add thousandth d).with_bytes ≡ false)
      × (length (ebpf_content add thousandth d).figures_shown ≤ 3)
unfolding ebpf_content figures
ebpf_content-sched add thousandth d h = rw h (refl, refl, ground arith)
