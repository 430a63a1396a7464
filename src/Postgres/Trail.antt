-- ===== src/Postgres/Trail.antt =====
-- internal/adapters/secondary/postgres/audit_repository.go: the trail of audit in a table. The checks
-- of the schema, the order of the answers of the server, JSON, and the scanning of an address by pgx
-- are the parameter `TrailSql`. The identifier of a row, which the server makes, is left out.
pub mod Hidden
mod Tests
use nexora_core.Prelude.{
  ℕ, String, Bool, true, false, ◌&&◌, ◌||◌, is_empty, Option, none, some, List, [], ◌∷◌, Dict, take,
  drop, str_eq, if◌then◌else◌,
}
use nexora_core.Prelude.Int.{ℤ, pos, negsuc, pos_part, ltb_ℤ}
use nexora_core.Domain.Errors.{Error, Result, ok, err}
use nexora_core.Domain.Values.{Texts, is_zero_id, new_tenant_id}
use nexora_core.Redis.Client.{Action, Delivery, call, lift, query, ◌>>=◌}
use nexora_core.Services.Auth.{AuditLog, Value}
use nexora_core.Services.Audit.{AuditFilter}

pub record TrailRow (Json : Type 0) : Type 0 where
  pub trace_id : Option String
  pub tenant_id : Option String
  pub actor_id : Option String
  pub actor_type : String
  pub action : String
  pub status : String
  pub ip_address : String
  pub user_agent : String
  pub device_id : String
  pub metadata : Json
  pub created_at : ℤ

-- `stored_time` is what a TIMESTAMPTZ keeps of a time, `scan_address` what the scan of a stored address
-- into a string gives, `newest_first` the order of the server, `unmarshal` the metadata that a text
-- decodes to, and `is_unset` says that a time is the zero time.
pub record TrailSql (Score Json : Type 0) : Type 0 where
  pub texts : Texts
  pub check : TrailRow Json → Option Error
  pub marshal : Dict (Value Score) → Option Json
  pub unmarshal : Json → Dict (Value Score)
  pub empty_object : Json
  pub is_unset : ℤ → Bool
  pub stored_time : ℤ → ℤ
  pub scan_address : String → Option String
  pub newest_first : List (TrailRow Json) → List (TrailRow Json)

-- The rows of an answer: all of them, none since the query was not sent, or the first `n`.
pub data Fetch : Type 0 where
  whole : Fetch
  unsent : Error → Fetch
  broken : ℕ → Fetch

-- NULL for an empty text
abbrev pub or_null : String → Option String
or_null s = if is_empty s then none else some s

-- A comparison with NULL does not hold.
abbrev pub equals : Option String → String → Bool
equals none s = false
equals (some c) s = str_eq c s

abbrev unset_or_equals : String → Option String → Bool
unset_or_equals s c = is_empty s || equals c s

-- `ParseTenantID` with its error dropped
abbrev tenant_or_zero : Result String → String
tenant_or_zero (ok t) = t
tenant_or_zero (err e) = ""

module _ {Json : Type 0} where
  abbrev pub insert_unless :
      Option Error → TrailRow Json → List (TrailRow Json) → Result (Unit {0}) × List (TrailRow Json)
  insert_unless none row w = (ok tt, row ∷ w)
  insert_unless (some e) row w = (err e, w)

  -- The WHERE clause that the set fields of the filter build.
  unfoldable pub selects : AuditFilter → TrailRow Json → Bool
  selects f row =
      equals row.tenant_id f.tenant_id
      && (unset_or_equals f.actor_id row.actor_id
          && (unset_or_equals f.trace_id row.trace_id
              && unset_or_equals f.status (some row.status)))

  unfoldable pub where_rows : AuditFilter → List (TrailRow Json) → List (TrailRow Json)
  where_rows f [] = []
  where_rows f (row ∷ w) = let rest = where_rows f w in if selects f row then row ∷ rest else rest

module _ {Score Json : Type 0} (q : TrailSql Score Json) where
  abbrev tenant_or_null : String → Option String
  tenant_or_null t = if is_zero_id q.texts t then none else some t

  abbrev or_object : Option Json → Json
  or_object none = q.empty_object
  or_object (some j) = j

  -- The values of `LogEvent`.
  abbrev pub trail_row : ℤ → AuditLog Score → TrailRow Json
  trail_row now entry = record {
    trace_id = or_null entry.trace_id;
    tenant_id = tenant_or_null entry.tenant_id;
    actor_id = or_null entry.actor_id;
    actor_type = entry.actor_type;
    action = entry.action;
    status = entry.status;
    ip_address = entry.ip_address;
    user_agent = entry.user_agent;
    device_id = entry.device_id;
    metadata = or_object (q.marshal entry.metadata);
    created_at = q.stored_time (if q.is_unset entry.created_at then now else entry.created_at);
  }

  unfoldable pub log_event :
      Delivery → ℤ → AuditLog Score → Action (List (TrailRow Json)) (Unit {0})
  log_event d now entry = do
    answer ← call d (λ w. insert_unless (q.check (trail_row now entry)) (trail_row now entry) w)
    lift answer

  -- The SELECT. The server refuses a negative limit or offset while it runs, so that there is no row.
  unfoldable pub select_rows : AuditFilter → List (TrailRow Json) → List (TrailRow Json)
  select_rows f w =
      let rows =
        take (pos_part f.limit) (drop (pos_part f.offset) (q.newest_first (where_rows f w))) in
      if ltb_ℤ f.limit (pos 0) || ltb_ℤ f.offset (pos 0) then [] else rows

  -- `Scan` into strings, which fails on NULL.
  abbrev pub scan_columns :
      TrailRow Json
      → Option String
      → Option String
      → Option String
      → Option String
      → Option (AuditLog Score)
  scan_columns row (some trace) (some tenant) (some actor) (some address) = some (record {
    trace_id = trace;
    tenant_id = tenant_or_zero (new_tenant_id q.texts tenant);
    actor_id = actor;
    actor_type = row.actor_type;
    action = row.action;
    status = row.status;
    ip_address = address;
    user_agent = row.user_agent;
    device_id = row.device_id;
    metadata = q.unmarshal row.metadata;
    created_at = row.created_at;
  })
  scan_columns row _ _ _ _ = none

  unfoldable pub scan : TrailRow Json → Option (AuditLog Score)
  scan row =
      scan_columns row row.trace_id row.tenant_id row.actor_id (q.scan_address row.ip_address)

  -- The loop of `FindLogs`: a row that does not scan is skipped.
  unfoldable pub scanned : List (TrailRow Json) → List (AuditLog Score)
  scanned [] = []
  scanned (row ∷ rows) =
      let rest = scanned rows in elim (scan row) [ none ↦ rest | some l ↦ l ∷ rest ]

  -- An error after the query was sent is in `rows.Err()`, which is not read.
  unfoldable pub find_logs :
      Fetch → AuditFilter → Action (List (TrailRow Json)) (List (AuditLog Score))
  find_logs whole f w = (ok (scanned (select_rows f w)), w)
  find_logs (unsent e) f w = (err e, w)
  find_logs (broken n) f w = (ok (scanned (take n (select_rows f w))), w)
