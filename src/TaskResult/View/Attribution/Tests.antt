-- ===== src/TaskResult/View/Attribution/Tests.antt =====
-- A report with sections, and one without.
use mini_drop_test.Base.{◌≡◌, refl, String, true, false, List, [], ◌∷◌, trim, includes}
use mini_drop_test.TaskResult.View.Attribution.{parse_attribution_report}
use mini_drop_test.TaskResult.Evidence.{EvidenceRow}
use mini_drop_test.TaskResult.Panels.{Loaded}

abbrev report : String
report =
    "# 报告\n## 证据\nTop1 read 40%\n\n## 结论 \n ok \n### 细节\nmore\n##none\n## 其他\nx\n##  优先修复建议\nfix"

report_sections :
    parse_attribution_report report
    ≡ ("evidence", "Top1 read 40%")
      ∷ ("conclusion", "ok \n### 细节\nmore\n##none")
      ∷ ("repair", "fix")
      ∷ []
unfolding parse_attribution_report trim includes
report_sections = refl

report_without_headings : parse_attribution_report " text\n#x " ≡ ("conclusion", "text\n#x") ∷ []
unfolding parse_attribution_report trim
report_without_headings = refl

abbrev only_evidence : Loaded
only_evidence = record {
  collapsed_text = false;
  topn_rows = false;
  svg_markup = false;
  suggestion_rows = false;
  evidence_rows = true;
  ebpf_data = false;
  pprof_cpu_rows = false;
  pprof_heap_rows = false;
  memory_data = false;
  memray_html_url = false;
  memray_loading = false;
  heap_rows = false;
  resource_summary = false;
}

abbrev evidence : List EvidenceRow
evidence = record { id = "E1"; text = "Top1 read" } ∷ []
