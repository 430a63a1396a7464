-- ===== src/Services/Audit/Guarded.antt =====
-- What audit_service.go asks of its repository, and what multi_audit_repository.go answers.
use nexora_core.Prelude.{
  ◌≡◌, ◌≢◌, ◌↔◌, ◌⊎◌, inl, inr, refl, ap, true, false, is_empty, List, [], ◌∷◌, arith,
}
use nexora_core.Prelude.Int.{pos, ◌≤ℤ◌}
use nexora_core.Domain.Errors.{Result, ok, err}
use nexora_core.Redis.Client.{ignore}
use nexora_core.Services.Auth.{AuditLog}
use nexora_core.Services.Auth.Steps.{bind_total}
use nexora_core.Services.Audit.{
  AuditFilter, AuditRepository, with_limit, get_logs, multi, find_cached, or_primary,
  requires_deep_search,
}

module _ (World Score : Type 0) where
  -- GetLogs without a tenant fails and leaves the repository alone; with one it asks the repository
  -- for that tenant only, with a limit that is not zero and at most 1000.
  get_logs-guarded :
      (repo : AuditRepository World Score) (filter : AuditFilter) (w : World)
      → (is_empty filter.tenant_id ≡ true
          → ((logs : List (AuditLog Score)) → (get_logs World Score repo filter w).0 ≢ ok logs)
            × ((get_logs World Score repo filter w).1 ≡ w))
        × (is_empty filter.tenant_id ≡ false
            → (asked : AuditFilter) × (get_logs World Score repo filter w ≡ repo.find_logs asked w)
              × (asked.tenant_id ≡ filter.tenant_id)
              × (asked.limit ≢ pos 0)
              × (asked.limit ≤ℤ pos 1000))
  unfolding get_logs with_limit
  get_logs-guarded repo filter w = (
    λ e. rw e ((λ logs k. cc k), refl),
    λ e. (with_limit filter, rw e refl, refl, ground arith, ground arith),
  )

  -- An event is logged exactly when the primary takes it, whatever the cache does.
  multi-log_event :
      (primary secondary : AuditRepository World Score) (entry : AuditLog Score) (w : World)
      → (((multi World Score primary secondary).log_event entry w).0 ≡ ok tt)
        ↔ ((primary.log_event entry w).0 ≡ ok tt)
  unfolding multi
  multi-log_event primary secondary entry w =
      bind_total (primary.log_event entry) (λ u. ignore (secondary.log_event entry)) w (λ t. refl)

  -- Logs that are found come from the primary, unless the search is not deep and the cache has some:
  -- so an empty answer and an error are always those of the primary.
  multi-find_logs :
      (primary secondary : AuditRepository World Score) (f : AuditFilter) (w : World)
      → (requires_deep_search World Score f ≡ true
          → (multi World Score primary secondary).find_logs f w ≡ primary.find_logs f w)
        × (requires_deep_search World Score f ≡ false
            → ((l : AuditLog Score) × (ls : List (AuditLog Score)) × (((multi World Score primary
                      secondary).find_logs
                    f w).0
                  ≡ ok (l ∷ ls))
                × ((secondary.find_logs f w).0 ≡ ok (l ∷ ls)))
              ⊎ ((multi World Score primary secondary).find_logs f w
                  ≡ primary.find_logs f (secondary.find_logs f w).1))
  unfolding multi
  multi-find_logs primary secondary f w =
      (λ deep. rw deep refl, λ shallow. rw shallow (go (secondary.find_logs f w).0 refl))
    where
      go :
          (r : Result (List (AuditLog Score)))
          → (secondary.find_logs f w).0 ≡ r
          → ((l : AuditLog Score) × (ls : List (AuditLog Score)) × ((find_cached World Score primary
                  secondary f w).0
                ≡ ok (l ∷ ls))
              × ((secondary.find_logs f w).0 ≡ ok (l ∷ ls)))
            ⊎ (find_cached World Score primary secondary f w
                ≡ primary.find_logs f (secondary.find_logs f w).1)
      go (ok (l ∷ ls)) p =
          inl (
            l,
            ls,
            ap (λ x. (or_primary World Score primary f x (secondary.find_logs f w).1).0) p,
            p,
          )
      go (ok []) p =
          inr (ap (λ x. or_primary World Score primary f x (secondary.find_logs f w).1) p)
      go (err e) p =
          inr (ap (λ x. or_primary World Score primary f x (secondary.find_logs f w).1) p)
