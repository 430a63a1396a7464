-- ===== src/Services/Audit/Tests.antt =====
-- Runs of audit_service.go on a primary that is empty and a cache that holds one entry.
use nexora_core.Prelude.{ℕ, suc, ◌≡◌, refl, none, [], ◌∷◌}
use nexora_core.Prelude.Int.{pos, negsuc}
use nexora_core.Domain.Errors.{ok, err, plain}
use nexora_core.Services.Auth.{AuditLog}
use nexora_core.Services.Audit.{AuditFilter, AuditRepository, normalize}

abbrev entry : AuditLog ℕ
entry = record {
  trace_id = "x";
  tenant_id = "t1";
  actor_id = "u1";
  actor_type = "user";
  action = "LOGIN_SUCCESS";
  status = "SUCCESS";
  ip_address = "10.0.0.9";
  user_agent = "curl";
  device_id = "d";
  metadata = [];
  created_at = pos 5;
}

abbrev filter : AuditFilter
filter = record {
  tenant_id = "t1";
  actor_id = "";
  action = "";
  status = "";
  trace_id = "";
  ip_address = "";
  start_date = none;
  end_date = none;
  limit = pos 5000;
  offset = negsuc 0;
}

abbrev primary : AuditRepository ℕ ℕ
primary = record {
  log_event = λ e w. (ok tt, suc w);
  find_logs = λ f w. (ok [], w);
  health = λ w. (ok tt, w);
}

abbrev cache : AuditRepository ℕ ℕ
cache = record {
  log_event = λ e w. (err (plain "redis down"), w);
  find_logs = λ f w. (ok (entry ∷ []), w);
  health = λ w. (err (plain "redis down"), w);
}

page : (normalize filter).limit ≡ pos 200
unfolding normalize
page = refl
