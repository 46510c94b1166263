-- ===== src/TaskResult/View.antt =====
-- What the result page shows: the header, and the content of each tab.
pub mod Attribution
pub mod Info
pub mod Ebpf
pub mod Memory
