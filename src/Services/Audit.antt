-- ===== src/Services/Audit.antt =====
-- internal/core/domain/audit.go, internal/core/services/audit_service.go and
-- internal/adapters/secondary/audit/multi_audit_repository.go: audit entries and filters, the
-- service over a repository, and the repository made of a primary and a cache. A repository is a
-- record of actions on a world; a zero time is `none`. Log lines are left out.
pub mod Guarded
mod Tests
use nexora_core.Prelude.{
  ℕ, String, Bool, true, false, not, ◌||◌, ◌&&◌, is_empty, Option, none, some, List, [], ◌∷◌,
  if◌then◌else◌,
}
use nexora_core.Prelude.Int.{ℤ, pos, ltb_ℤ, leb_ℤ}
use nexora_core.Domain.Errors.{Error, plain, Result, ok, err}
use nexora_core.Redis.Client.{Action, pure, fail, ignore, attempt, ◌>>=◌, ◌>>◌}
use nexora_core.Services.Auth.{AuditLog}

pub record AuditFilter : Type 0 where
  pub tenant_id : String
  pub actor_id : String
  pub action : String
  pub status : String
  pub trace_id : String
  pub ip_address : String
  pub start_date : Option ℤ
  pub end_date : Option ℤ
  pub limit : ℤ
  pub offset : ℤ

unfoldable pub normalize : AuditFilter → AuditFilter
normalize f =
    let lower = if leb_ℤ f.limit (pos 0) then pos 50 else f.limit in
    record f {
      limit = if ltb_ℤ (pos 200) lower then pos 200 else lower;
      offset = if ltb_ℤ f.offset (pos 0) then pos 0 else f.offset;
    }

-- The defaults of `GetLogs`, which are others.
unfoldable pub with_limit : AuditFilter → AuditFilter
with_limit f =
    let given = if leb_ℤ f.limit (pos 0) && leb_ℤ (pos 0) f.limit then pos 50 else f.limit in
    record f { limit = if ltb_ℤ (pos 1000) given then pos 1000 else given }

module _ (World Score : Type 0) where
  pub record AuditRepository : Type 0 where
    pub log_event : AuditLog Score → Action World (Unit {0})
    pub find_logs : AuditFilter → Action World (List (AuditLog Score))
    pub health : Action World (Unit {0})

  unfoldable pub validate : AuditLog Score → Option Error
  validate a =
      if is_empty a.tenant_id
      then some (plain "tenant_id is required")
      else if is_empty a.actor_id
      then some (plain "actor_id is required")
      else if is_empty a.action
      then some (plain "action is required")
      else if is_empty a.trace_id
      then some (plain "trace_id is required for correlation")
      else none

  unfoldable pub log : AuditRepository → AuditLog Score → Action World (Unit {0})
  log repo entry =
      if is_empty entry.tenant_id
      then fail (plain "audit_service: tenantID is required to log an event")
      else repo.log_event entry

  unfoldable pub get_logs : AuditRepository → AuditFilter → Action World (List (AuditLog Score))
  get_logs repo filter =
      if is_empty filter.tenant_id
      then fail (plain "audit_service: tenantID is missing in filter, access denied")
      else repo.find_logs (with_limit filter)

  abbrev is_set : Option ℤ → Bool
  is_set none = false
  is_set (some t) = true

  unfoldable pub requires_deep_search : AuditFilter → Bool
  requires_deep_search f = is_set f.start_date || (is_set f.end_date || not (is_empty f.trace_id))

  -- The answer of the cache, unless it is an error or empty.
  abbrev pub or_primary :
      AuditRepository
      → AuditFilter
      → Result (List (AuditLog Score))
      → Action World (List (AuditLog Score))
  or_primary primary f (ok (l ∷ ls)) = pure (l ∷ ls)
  or_primary primary f (ok []) = primary.find_logs f
  or_primary primary f (err e) = primary.find_logs f

  abbrev pub find_cached :
      AuditRepository → AuditRepository → AuditFilter → Action World (List (AuditLog Score))
  find_cached primary secondary f = do
    logs ← attempt (secondary.find_logs f)
    or_primary primary f logs

  -- `MultiAuditRepository`
  unfoldable pub multi : AuditRepository → AuditRepository → AuditRepository
  multi primary secondary = record {
    log_event = λ entry. (primary.log_event entry >> ignore (secondary.log_event entry));
    find_logs = λ f.
        if requires_deep_search f then primary.find_logs f else find_cached primary secondary f;
    health = primary.health;
  }
