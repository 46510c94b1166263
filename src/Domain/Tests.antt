-- ===== src/Domain/Tests.antt =====
-- The helpers of web/src/domain.ts on small inputs.
use mini_drop_test.Base.{◌≡◌, refl, some, split}
use mini_drop_test.Domain.Format.{basename}

basename_path : basename (some "tasks/7/top.json") ≡ "top.json"
unfolding basename split
basename_path = refl
