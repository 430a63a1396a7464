-- ===== src/Domain/Tenant/Tests.antt =====
-- Runs of internal/core/domain/tenant.go: an operator, a provider under it, and a refused child.
use nexora_core.Prelude.{◌≡◌, refl, true, false, none, some}
use nexora_core.Domain.Errors.{ok, err, domain, err_invalid_hierarchy}
use nexora_core.Domain.Tenant.{Tenant, new_tenant, enable_portal, rehydrate_tenant}
use nexora_core.Domain.Tenant.Lineage.{Built, depth, StandsAt, Built-StandsAt}

abbrev operator : Tenant
operator = record {
  id = "o";
  parent_id = none;
  name = "Nexora";
  typ = "operator";
  config = record { portal_enabled = false };
}

abbrev provider : Tenant
provider = record {
  id = "p";
  parent_id = some "o";
  name = "Provider";
  typ = "provider";
  config = record { portal_enabled = true };
}

new_operator : new_tenant "o" "Nexora" "operator" none false ≡ ok operator
unfolding new_tenant
new_operator = refl

new_provider : new_tenant "p" "Provider" "provider" (some operator) true ≡ ok provider
unfolding new_tenant
new_provider = refl

provider_under_provider :
    new_tenant "q" "Q" "provider" (some provider) true ≡ err (domain err_invalid_hierarchy)
unfolding new_tenant
provider_under_provider = refl

abbrev restored : Tenant
restored = rehydrate_tenant "p" (some "o") "Provider" "provider" true

abbrev lineage : Built (enable_portal restored)
lineage = Built.enabled (
    Built.rehydrated (
      Built.child "p" "Provider" "provider" true
        (Built.root "o" "Nexora" "operator" false new_operator) new_provider))

Built-StandsAt_example : StandsAt (depth lineage) (enable_portal restored)
Built-StandsAt_example = Built-StandsAt lineage
