-- ===== src/Domain/Tenant.antt =====
-- internal/core/domain/tenant.go: the tenant aggregate. A `*Tenant` or `*TenantID` that may be nil
-- is an `Option`; the configuration has one switch.
pub mod Lineage
mod Tests
use nexora_core.Prelude.{
  String, Bool, true, false, not, Option, none, some, str_eq, is_empty, if◌then◌else◌,
}
use nexora_core.Domain.Errors.{
  Error, domain, plain, Result, ok, err, err_invalid_hierarchy, err_invalid_tenant_type,
}

abbrev pub TenantType : Type 0
TenantType = String

abbrev pub tenant_operator : TenantType
tenant_operator = "operator"

abbrev pub tenant_provider : TenantType
tenant_provider = "provider"

abbrev pub tenant_reseller : TenantType
tenant_reseller = "reseller"

pub record TenantConfig : Type 0 where
  pub portal_enabled : Bool

pub record Tenant : Type 0 where
  pub id : String
  pub parent_id : Option String
  pub name : String
  pub typ : TenantType
  pub config : TenantConfig

-- A child whose parent must be of the given type, the middle cases of the switch.
require_parent : String → TenantType → Option Tenant → Result (Option String)
require_parent missing wanted none = err (plain missing)
require_parent missing wanted (some p) =
    if not (str_eq p.typ wanted) then err (domain err_invalid_hierarchy) else ok (some p.id)

-- The switch on the type: the parent id of the new tenant, or the error.
check_parent : TenantType → Option Tenant → Result (Option String)
unfolding require_parent
check_parent typ parent =
    if str_eq typ tenant_operator
    then elim parent [ none ↦ ok none | some p ↦ err (plain "operator must be root (no parent)") ]
    else if str_eq typ tenant_provider
    then require_parent "provider must have a parent" tenant_operator parent
    else if str_eq typ tenant_reseller
    then require_parent "reseller must have a parent" tenant_provider parent
    else err (domain err_invalid_tenant_type)

pub new_tenant : String → String → TenantType → Option Tenant → Bool → Result Tenant
unfolding check_parent
new_tenant id name typ parent portal_enabled =
    if is_empty name
    then err (plain "tenant name cannot be empty")
    else elim (check_parent typ parent) [
      | ok p ↦ ok (record {
        id = id;
        parent_id = p;
        name = name;
        typ = typ;
        config = record { portal_enabled = portal_enabled };
      })
      | err e ↦ err e
    ]

-- `RehydrateTenant`, which checks nothing
pub rehydrate_tenant : String → Option String → String → TenantType → Bool → Tenant
rehydrate_tenant id parent_id name typ portal_enabled = record {
  id = id;
  parent_id = parent_id;
  name = name;
  typ = typ;
  config = record { portal_enabled = portal_enabled };
}

pub is_root : Tenant → Bool
is_root t = elim t.parent_id [ none ↦ true | some p ↦ false ]

pub enable_portal : Tenant → Tenant
enable_portal t = record t { config = record { portal_enabled = true } }

pub disable_portal : Tenant → Tenant
disable_portal t = record t { config = record { portal_enabled = false } }
