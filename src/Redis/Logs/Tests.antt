-- ===== src/Redis/Logs/Tests.antt =====
-- Runs of audit_repository.go with entries that are their own JSON.
use nexora_core.Prelude.{◌≡◌, refl, String, none, some, List, [], ◌∷◌, text-ne, arith}
use nexora_core.Prelude.Int.{pos}
use nexora_core.Domain.Errors.{ok}
use nexora_core.Redis.Client.{delivered, lost_reply}
use nexora_core.Services.Auth.{AuditLog}
use nexora_core.Services.Audit.{AuditFilter}
use nexora_core.Redis.Logs.{
  LogCodec, RedisAuditConfig, default_redis_audit_config, fetch_count, has_active_filters,
  apply_filters, LogRedis, log_event, find_logs,
}
use nexora_core.Redis.Logs.Pages.{find_logs-log_event_other}
use nexora_core.Redis.Logs.Newest.{find_logs-log_event, find_logs-ignores}

abbrev pub codec : LogCodec
codec = record {
  Score = Unit {0};
  Data = AuditLog (Unit {0});
  marshal = λ l. ok l;
  unmarshal = λ l. some l;
  trim_space = λ t. t;
}

abbrev entry : String → AuditLog (Unit {0})
entry tenant = record {
  trace_id = "trace";
  tenant_id = tenant;
  actor_id = "u";
  actor_type = "user";
  action = "LOGIN";
  status = "SUCCESS";
  ip_address = "10.0.0.1";
  user_agent = "";
  device_id = "";
  metadata = [];
  created_at = pos 1;
}

abbrev filter : AuditFilter
filter = record {
  tenant_id = "t";
  actor_id = "";
  action = "LOGIN";
  status = "";
  trace_id = "";
  ip_address = "10.9.9.9";
  start_date = none;
  end_date = none;
  limit = pos 2;
  offset = pos 0;
}

abbrev cfg : RedisAuditConfig
cfg = record default_redis_audit_config { max_per_tenant = pos 3 }

abbrev nothing : LogRedis codec
nothing = record { lists = [] }

find_logs-log_event_other_example :
    let w = (log_event codec cfg (lost_reply "eof") (entry "other") nothing).1 in
    (find_logs codec cfg delivered filter w).0 ≡ (find_logs codec cfg delivered filter nothing).0
find_logs-log_event_other_example =
    find_logs-log_event_other codec cfg (lost_reply "eof") delivered (entry "other") filter nothing
      (text-ne "other" "t" refl)

find_logs-log_event_example :
    let w = (log_event codec cfg delivered (entry "t") nothing).1 in
    (ls : List (AuditLog (Unit {0}))) × ((find_logs codec cfg delivered filter w).0
      ≡ ok (entry "t" ∷ ls))
unfolding fetch_count has_active_filters apply_filters
find_logs-log_event_example =
    find_logs-log_event codec cfg 3 1000 (entry "t") (entry "t") filter nothing refl (omega arith)
      refl (omega arith) refl refl refl refl refl

find_logs-ignores_example :
    find_logs codec cfg delivered
      (record filter {
        ip_address = "";
        start_date = some (pos 1);
        end_date = none;
        offset = pos 40;
      })
      nothing
    ≡ find_logs codec cfg delivered filter nothing
find_logs-ignores_example =
    find_logs-ignores codec cfg delivered filter nothing "" (some (pos 1)) none (pos 40)
