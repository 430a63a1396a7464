-- ===== src/Domain/Plan/Tests.antt =====
-- A run of internal/core/domain/plan.go.
use nexora_core.Prelude.{◌≡◌, refl}
use nexora_core.Prelude.Int.{pos}
use nexora_core.Domain.Errors.{ok}
use nexora_core.Domain.Plan.{Plan, NewPlanParams, new_plan}

abbrev params : NewPlanParams
params = record {
  id = "p1";
  tenant_id = "t1";
  name = "Gold";
  description = "";
  data_quota = 1000;
  max_upload = 10;
  max_download = 20;
  max_sessions = pos 3;
  time_quota = pos 0;
}

abbrev plan : Plan
plan = record {
  id = "p1";
  tenant_id = "t1";
  name = "Gold";
  description = "";
  data_quota = 1000;
  max_upload = 10;
  max_download = 20;
  max_sessions = pos 3;
  time_quota = pos 0;
  version = 1;
  created_at = pos 5;
  updated_at = pos 5;
}

created : new_plan params (pos 5) ≡ ok plan
unfolding new_plan
created = refl
