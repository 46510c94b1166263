-- ===== src/Home/Tests.antt =====
-- The overview with a filled form.
use mini_drop_test.Base.{false, none, []}
use mini_drop_test.Domain.{TaskCreateMode}
use mini_drop_test.Creation.Tests.{filled}
use mini_drop_test.Home.{HomeState}

abbrev overview : HomeState
overview = record {
  tasks = [];
  agents = [];
  loading = false;
  creation = filled TaskCreateMode.oneshot;
  poller = none;
}
