-- ===== src/TaskResult/View/Memory/Tests.antt =====
-- A page whose memray picture could not be loaded.
use mini_drop_test.Base.{false, none, []}
use mini_drop_test.TaskResult.View.Memory.{MemoryInput}

abbrev failed_picture : MemoryInput
failed_picture = record {
  memray_loading = false;
  memray_html_url = "";
  memray_error = "HTTP 500";
  memory_data = none;
  heap_rows = [];
  resource = none;
}
