-- ===== src/Postgres/Trail/Tests.antt =====
-- A trail with one entry that has an actor, and another entry that has none.
use mathlib.Core.List.{Memᴰ}
use nexora_core.Prelude.{true, false, none, some, List, [], ◌∷◌}
use nexora_core.Prelude.Int.{ℤ, pos}
use nexora_core.Domain.Errors.{ok}
use nexora_core.Domain.Values.{Texts}
use nexora_core.Services.Auth.{AuditLog}
use nexora_core.Services.Audit.{AuditFilter}
use nexora_core.Postgres.Trail.{TrailRow, TrailSql, trail_row}

abbrev texts : Texts
texts = record {
  is_uuid = λ s. true;
  lower = λ s. s;
  trim_space = λ s. s;
  parse_mac = λ s. none;
  show_mac = λ bytes. "";
  marshal_text = λ s. s;
  unmarshal_text = λ s. ok s;
}

abbrev sql : TrailSql ℤ (Unit {0})
sql = record {
  texts = texts;
  check = λ row. none;
  marshal = λ m. some tt;
  unmarshal = λ j. [];
  empty_object = tt;
  is_unset = λ t. false;
  stored_time = λ t. t;
  scan_address = some;
  newest_first = λ rows. rows;
}

abbrev login : AuditLog ℤ
login = record {
  trace_id = "r1";
  tenant_id = "t1";
  actor_id = "u1";
  actor_type = "user";
  action = "LOGIN_SUCCESS";
  status = "SUCCESS";
  ip_address = "10.0.0.1";
  user_agent = "curl";
  device_id = "";
  metadata = [];
  created_at = pos 4;
}

abbrev anonymous : AuditLog ℤ
anonymous = record login { actor_id = ""; action = "LOGIN_FAILED"; status = "FAILURE" }

abbrev all_logs : AuditFilter
all_logs = record {
  tenant_id = "t1";
  actor_id = "";
  action = "";
  status = "";
  trace_id = "";
  ip_address = "";
  start_date = none;
  end_date = none;
  limit = pos 50;
  offset = pos 0;
}

abbrev table : List (TrailRow (Unit {0}))
table = trail_row sql (pos 4) login ∷ []
