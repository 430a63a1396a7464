-- ===== src/Domain/Plan.antt =====
-- internal/core/domain/plan.go: the plan aggregate. Clock readings are arguments; a method with an
-- `error` result returns it beside the plan it leaves.
pub mod Life
mod Tests
use nexora_core.Prelude.{ℕ, ◌+◌, ◌%◌, ◌^◌, String, Option, none, some, is_empty, if◌then◌else◌}
use nexora_core.Prelude.Int.{ℤ, pos, ltb_ℤ}
use nexora_core.Domain.Errors.{Error, plain, Result, ok, err}

pub record Plan : Type 0 where
  pub id : String
  pub tenant_id : String
  pub name : String
  pub description : String
  pub data_quota : ℕ
  pub max_upload : ℕ
  pub max_download : ℕ
  pub max_sessions : ℤ
  pub time_quota : ℤ
  pub version : ℕ
  pub created_at : ℤ
  pub updated_at : ℤ

pub record NewPlanParams : Type 0 where
  pub id : String
  pub tenant_id : String
  pub name : String
  pub description : String
  pub data_quota : ℕ
  pub max_upload : ℕ
  pub max_download : ℕ
  pub max_sessions : ℤ
  pub time_quota : ℤ

pub new_plan : NewPlanParams → ℤ → Result Plan
new_plan p now =
    if is_empty p.name
    then err (plain "plan name cannot be empty")
    else if ltb_ℤ p.max_sessions (pos 0)
    then err (plain "maxSessions cannot be negative")
    else ok (record {
      id = p.id;
      tenant_id = p.tenant_id;
      name = p.name;
      description = p.description;
      data_quota = p.data_quota;
      max_upload = p.max_upload;
      max_download = p.max_download;
      max_sessions = p.max_sessions;
      time_quota = p.time_quota;
      version = 1;
      created_at = now;
      updated_at = now;
    })

validate_invariants : Plan → Option Error
validate_invariants p =
    if ltb_ℤ p.max_sessions (pos 0)
    then some (plain "invariant violation: negative maxSessions")
    else none

-- A `PlanSnapshot` has the fields of a `Plan`.
pub rehydrate_plan : Plan → Result Plan
unfolding validate_invariants
rehydrate_plan s = elim (validate_invariants s) [ none ↦ ok s | some e ↦ err e ]

bump_version : ℤ → Plan → Plan
bump_version now p = record p { version = (p.version + 1) % 2 ^ 64; updated_at = now }

pub update_details : String → String → ℤ → Plan → Option Error × Plan
unfolding bump_version
update_details name description now p =
    if is_empty name
    then (some (plain "plan name cannot be empty"), p)
    else (none, bump_version now (record p { name = name; description = description }))

pub update_limits : ℕ → ℕ → ℕ → ℤ → ℤ → ℤ → Plan → Option Error × Plan
unfolding bump_version
update_limits data_quota max_upload max_download max_sessions time_quota now p =
    if ltb_ℤ max_sessions (pos 0) then (some (plain "maxSessions cannot be negative"), p) else (
      none,
      bump_version now (record p {
        data_quota = data_quota;
        max_upload = max_upload;
        max_download = max_download;
        max_sessions = max_sessions;
        time_quota = time_quota;
      }),
    )
