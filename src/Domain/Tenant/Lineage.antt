-- ===== src/Domain/Tenant/Lineage.antt =====
-- The hierarchy that NewTenant of internal/core/domain/tenant.go allows.
use nexora_core.Prelude.{
  ℕ, zero, suc, ◌≤◌, ◌≡◌, ◌↔◌, ◌⊎◌, inl, inr, String, Bool, true, false, Option, none, some,
  is_empty, arith, text-eq, text-ne, sym, subst, ◌∙◌, refl,
}
use nexora_core.Domain.Errors.{ok}
use nexora_core.Domain.Tenant.{
  Tenant, TenantType, tenant_operator, tenant_provider, tenant_reseller, new_tenant, check_parent,
  is_root, enable_portal, disable_portal, rehydrate_tenant,
}

-- The tenants that come from the factory, a parent before its child: also after the two switches, and
-- rehydrated from the fields that were stored of one.
pub data Built : Tenant → Type 0 where
  root :
      {t : Tenant} (id name : String) (typ : TenantType) (portal : Bool)
      → new_tenant id name typ none portal ≡ ok t
      → Built t
  child :
      {p t : Tenant} (id name : String) (typ : TenantType) (portal : Bool)
      → Built p
      → new_tenant id name typ (some p) portal ≡ ok t
      → Built t
  enabled : {t : Tenant} → Built t → Built (enable_portal t)
  disabled : {t : Tenant} → Built t → Built (disable_portal t)
  rehydrated :
      {t : Tenant}
      → Built t
      → Built (rehydrate_tenant t.id t.parent_id t.name t.typ t.config.portal_enabled)

-- The number of ancestors.
pub depth : {t : Tenant} → Built t → ℕ
depth (root id name typ portal e) = 0
depth (child id name typ portal b e) = suc (depth b)
depth (enabled b) = depth b
depth (disabled b) = depth b
depth (rehydrated b) = depth b

-- The type of the tenants with so many ancestors.
abbrev pub type_at : ℕ → TenantType
type_at zero = tenant_operator
type_at (suc zero) = tenant_provider
type_at (suc (suc n)) = tenant_reseller

-- The links that the hierarchy allows: an operator without a parent, a provider under an operator,
-- a reseller under a provider.
abbrev pub Allowed : TenantType → Option Tenant → Type 0
Allowed typ none = typ ≡ tenant_operator
Allowed typ (some p) =
    ((typ ≡ tenant_provider) × (p.typ ≡ tenant_operator))
    ⊎ ((typ ≡ tenant_reseller) × (p.typ ≡ tenant_provider))

-- The tenant that a successful call makes.
abbrev pub made : String → String → TenantType → Option Tenant → Bool → Tenant
made id name typ parent portal = record {
  id = id;
  parent_id = elim parent [ none ↦ none | some p ↦ some p.id ];
  name = name;
  typ = typ;
  config = record { portal_enabled = portal };
}

accepted :
    (id name : String) (typ : TenantType) (parent : Option Tenant) (portal : Bool)
    → is_empty name ≡ false
    → Allowed typ parent
    → new_tenant id name typ parent portal ≡ ok (made id name typ parent portal)
unfolding new_tenant check_parent
accepted id name typ none portal h a =
    subst (λ x. new_tenant id name x none portal ≡ ok (made id name x none portal)) (sym a) (rw h)
accepted id name typ (some p) portal h (inl (a, b)) =
    subst (λ x. new_tenant id name x (some p) portal ≡ ok (made id name x (some p) portal)) (sym a)
      (rw (h, b))
accepted id name typ (some p) portal h (inr (a, b)) =
    subst (λ x. new_tenant id name x (some p) portal ≡ ok (made id name x (some p) portal)) (sym a)
      (rw (h, b))

new_tenant-Allowed :
    (id name : String) (typ : TenantType) (parent : Option Tenant) (portal : Bool) (t : Tenant)
    → new_tenant id name typ parent portal ≡ ok t
    → (is_empty name ≡ false) × Allowed typ parent × (t.typ ≡ typ)
unfolding new_tenant check_parent
new_tenant-Allowed id name typ none portal t e = ground (arith, text-eq typ tenant_operator)
new_tenant-Allowed id name typ (some p) portal t e = ground (
  arith,
  text-eq typ tenant_provider,
  text-eq typ tenant_reseller,
  text-eq p.typ tenant_provider,
  text-eq p.typ tenant_operator,
)

-- The factory accepts a name that is not empty with an operator and no parent, a provider under an
-- operator or a reseller under a provider, and nothing else; the tenant carries the id of its
-- parent, the given name and type, and the given portal switch.
new_tenant-ok_iff :
    (id name : String) (typ : TenantType) (parent : Option Tenant) (portal : Bool)
    → (((t : Tenant) × (new_tenant id name typ parent portal ≡ ok t))
        ↔ ((is_empty name ≡ false) × Allowed typ parent))
      × ((t : Tenant)
          → new_tenant id name typ parent portal ≡ ok t
          → t ≡ made id name typ parent portal)
new_tenant-ok_iff id name typ parent portal = (
  (
    λ e. let r = new_tenant-Allowed id name typ parent portal e.0 e.1 in (r.0, r.1),
    λ h. (made id name typ parent portal, accepted id name typ parent portal h.0 h.1),
  ),
  λ t e.
      let r = new_tenant-Allowed id name typ parent portal t e in
      cc (e, accepted id name typ parent portal r.0 r.1),
)

operator_depth : (n : ℕ) → type_at n ≡ tenant_operator → n ≡ 0
operator_depth zero e = refl
operator_depth (suc zero) e = absurd (text-ne tenant_provider tenant_operator refl e)
operator_depth (suc (suc n)) e = absurd (text-ne tenant_reseller tenant_operator refl e)

provider_depth : (n : ℕ) → type_at n ≡ tenant_provider → n ≡ 1
provider_depth zero e = absurd (text-ne tenant_operator tenant_provider refl e)
provider_depth (suc zero) e = refl
provider_depth (suc (suc n)) e = absurd (text-ne tenant_reseller tenant_provider refl e)

-- What holds of a tenant with so many ancestors.
abbrev pub StandsAt : ℕ → Tenant → Type 0
StandsAt n t = (t.typ ≡ type_at n) × (n ≤ 2) × ((is_root t ≡ true) ↔ (n ≡ 0))

child-StandsAt :
    (id name : String) (typ : TenantType) (p t : Tenant) (portal : Bool) (n : ℕ)
    → p.typ ≡ type_at n
    → Allowed typ (some p)
    → t ≡ made id name typ (some p) portal
    → StandsAt (suc n) t
unfolding is_root
child-StandsAt id name typ p t portal n at (inl (a, b)) e =
    let z : n ≡ 0 = operator_depth n (sym at ∙ b) in
    rw (e, z) (a, omega arith, ((λ h. cc), (λ h. absurd (omega arith))))
child-StandsAt id name typ p t portal n at (inr (a, b)) e =
    let z : n ≡ 1 = provider_depth n (sym at ∙ b) in
    rw (e, z) (a, omega arith, ((λ h. cc), (λ h. absurd (omega arith))))

-- The type of a tenant that NewTenant made under parents made alike tells how many ancestors it has:
-- an operator none, a provider one, a reseller two. So none is more than two steps below an operator,
-- and it is a root exactly when it has no ancestor. The same holds after the portal switches, and of
-- the tenant that RehydrateTenant makes of the stored fields of such a tenant.
pub Built-StandsAt : {t : Tenant} (b : Built t) → StandsAt (depth b) t
unfolding depth is_root enable_portal disable_portal rehydrate_tenant
Built-StandsAt (root {t = t} id name typ portal e) =
    let r = new_tenant-ok_iff id name typ none portal in
    rw (r.1 t e) ((r.0.0 (t, e)).1, omega arith, ((λ h. refl), (λ h. refl)))
Built-StandsAt (child {p = p} {t = t} id name typ portal b e) =
    let r = new_tenant-ok_iff id name typ (some p) portal in
    child-StandsAt id name typ p t portal (depth b) (Built-StandsAt b).0 (r.0.0 (t, e)).1 (r.1 t e)
Built-StandsAt (enabled b) = Built-StandsAt b
Built-StandsAt (disabled b) = Built-StandsAt b
Built-StandsAt (rehydrated b) = Built-StandsAt b
