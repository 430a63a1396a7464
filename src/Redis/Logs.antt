-- ===== src/Redis/Logs.antt =====
-- internal/adapters/secondary/redis/audit_repository.go: the audit entries of each tenant in a
-- bounded list of a Redis server, the newest first. JSON and `strings.TrimSpace` are the parameter
-- `LogCodec`; the outcome of each round trip is an argument. The time to live of a list is left out.
pub mod Pages
pub mod Newest
mod Tests
use nexora_core.Prelude.{
  ℕ, suc, ◌+◌, ◌-◌, String, ◌<>◌, Bool, true, false, not, ◌||◌, ◌&&◌, is_empty, Option, none, some,
  List, [], ◌∷◌, Dict, lookup, insert, length, take, str_eq, leb, if◌then◌else◌,
}
use nexora_core.Prelude.Int.{ℤ, pos, negsuc, pos_part, ◌-ℤ◌, ltb_ℤ, leb_ℤ}
use nexora_core.Domain.Errors.{plain, wrap, Result, ok, err}
use nexora_core.Redis.Client.{Delivery, Action, fail, lift, attempt, pure, ◌>>=◌, ◌>>◌, query, send}
use nexora_core.Services.Auth.{AuditLog}
use nexora_core.Services.Audit.{AuditFilter, AuditRepository}

pub record LogCodec : Type 1 where
  pub Score : Type 0
  pub Data : Type 0
  pub marshal : AuditLog Score → Result Data
  pub unmarshal : Data → Option (AuditLog Score)
  pub trim_space : String → String

pub record RedisAuditConfig : Type 0 where
  pub key_prefix : String
  pub max_per_tenant : ℤ
  pub fetch_on_filter : ℤ
  pub max_limit : ℤ

abbrev pub default_redis_audit_config : RedisAuditConfig
default_redis_audit_config = record {
  key_prefix = "audit:logs";
  max_per_tenant = pos 10000;
  fetch_on_filter = pos 1000;
  max_limit = pos 1000;
}

-- The elements of a list from the first to that of index `stop`, which counts from the end when it
-- is negative: `LTRIM` and `LRANGE` from 0.
unfoldable pub range_to : {A : Type 0} → ℤ → List A → List A
range_to (pos n) xs = take (suc n) xs
range_to (negsuc n) xs = take (length xs - n) xs

-- `fmt.Sprintf("%s:{%s}", …)`
unfoldable pub build_key : RedisAuditConfig → String → String
build_key cfg tenant = cfg.key_prefix <> (":{" <> (tenant <> "}"))

-- A criterion that is not given, or that is met.
abbrev pub meets : String → String → Bool
meets asked found = is_empty asked || str_eq found asked

unfoldable pub has_active_filters : AuditFilter → Bool
has_active_filters f =
    not (is_empty f.status)
    || (not (is_empty f.action) || (not (is_empty f.actor_id) || not (is_empty f.trace_id)))

unfoldable pub apply_filters : {Score : Type 0} → AuditLog Score → AuditFilter → Bool
apply_filters l f =
    meets f.status l.status
    && (meets f.action l.action && (meets f.actor_id l.actor_id && meets f.trace_id l.trace_id))

unfoldable pub limit_of : RedisAuditConfig → AuditFilter → ℤ
limit_of cfg f = if leb_ℤ f.limit (pos 0) || ltb_ℤ cfg.max_limit f.limit then pos 50 else f.limit

unfoldable pub fetch_count : RedisAuditConfig → AuditFilter → ℤ
fetch_count cfg f = if has_active_filters f then cfg.fetch_on_filter else limit_of cfg f

module _ (c : LogCodec) where
  open c use {Score, Data, marshal, unmarshal, trim_space}

  pub record LogRedis : Type 0 where
    pub lists : Dict (List Data)

  abbrev pub list_at : String → LogRedis → List Data
  list_at key w = elim (lookup key w.lists) [ none ↦ [] | some xs ↦ xs ]

  -- `TenantID.IsZero`
  abbrev pub is_zero : String → Bool
  is_zero tenant = is_empty (trim_space tenant)

  -- LPUSH, LTRIM and EXPIRE in one pipeline
  unfoldable pub push : RedisAuditConfig → String → Data → LogRedis → LogRedis
  push cfg key text w = record {
    lists = insert key (range_to (cfg.max_per_tenant -ℤ pos 1) (text ∷ list_at key w)) w.lists;
  }

  abbrev marshalled : Result Data → Result Data
  marshalled (ok text) = ok text
  marshalled (err e) = err (wrap "redis_audit: marshal failed: " e "")

  unfoldable pub log_event :
      RedisAuditConfig → Delivery → AuditLog Score → Action LogRedis (Unit {0})
  log_event cfg d entry =
      if is_zero entry.tenant_id then fail (plain "redis_audit: entrée invalide") else (do
        text ← lift (marshalled (marshal entry))
        send d (push cfg (build_key cfg entry.tenant_id) text))

  -- The loop of `FindLogs` with `n` places left: a text that does not decode is skipped, and a full
  -- page ends it.
  unfoldable pub collect : AuditFilter → ℕ → List Data → List (AuditLog Score)
  collect f n [] = []
  collect f n (raw ∷ raws) =
      let rest = collect f n raws in
      let full = collect f (n - 1) raws in
      elim (unmarshal raw) [
        | none ↦ rest
        | some l ↦ if apply_filters l f then l ∷ (if leb n 1 then [] else full) else rest
      ]

  abbrev pub page :
      RedisAuditConfig → AuditFilter → Result (List Data) → Result (List (AuditLog Score))
  page cfg f (ok raws) = ok (collect f (pos_part (limit_of cfg f)) raws)
  page cfg f (err e) = err (wrap "redis_audit: lrange failed: " e "")

  unfoldable pub find_logs :
      RedisAuditConfig → Delivery → AuditFilter → Action LogRedis (List (AuditLog Score))
  find_logs cfg d f =
      if is_zero f.tenant_id then fail (plain "redis_audit: tenant_id requis") else (do
        raws ← attempt (
            query d
              (λ w. range_to (fetch_count cfg f -ℤ pos 1) (list_at (build_key cfg f.tenant_id) w)))
        lift (page cfg f raws))

  -- `PING`
  abbrev health : Delivery → Action LogRedis (Unit {0})
  health d = query d (λ w. tt)

  abbrev pub redis_audit_repository :
      RedisAuditConfig → Delivery → Delivery → Delivery → AuditRepository LogRedis Score
  redis_audit_repository cfg d d' d'' = record {
    log_event = log_event cfg d;
    find_logs = find_logs cfg d';
    health = health d'';
  }
