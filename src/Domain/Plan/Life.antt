-- ===== src/Domain/Plan/Life.antt =====
-- Every sequence of updates of a plan of internal/core/domain/plan.go.
use nexora_core.Prelude.{ℕ, ◌≡◌, String, false, is_empty, List, [], ◌∷◌, arith}
use nexora_core.Prelude.Int.{ℤ, pos, ◌≤ℤ◌}
use nexora_core.Domain.Errors.{ok}
use nexora_core.Domain.Plan.{
  Plan, NewPlanParams, new_plan, rehydrate_plan, update_details, update_limits,
}

pub data PlanUpdate : Type 0 where
  details : String → String → ℤ → PlanUpdate
  limits : ℕ → ℕ → ℕ → ℤ → ℤ → ℤ → PlanUpdate

abbrev pub update : PlanUpdate → Plan → Plan
update (details name description now) p = (update_details name description now p).1
update (limits quota up down sessions time now) p =
    (update_limits quota up down sessions time now p).1

pub updates : List PlanUpdate → Plan → Plan
updates [] p = p
updates (u ∷ us) p = updates us (update u p)

pub record IsValid (p : Plan) : Type 0 where
  pub named : is_empty p.name ≡ false
  pub sessions : pos 0 ≤ℤ p.max_sessions

update-IsValid : (u : PlanUpdate) (p : Plan) → IsValid p → IsValid (update u p)
unfolding update_details update_limits
update-IsValid (details name description now) p h = ground arith
update-IsValid (limits quota up down sessions time now) p h = ground arith

updates-IsValid : (us : List PlanUpdate) (p : Plan) → IsValid p → IsValid (updates us p)
unfolding updates
updates-IsValid [] p h = h
updates-IsValid (u ∷ us) p h = updates-IsValid us (update u p) (update-IsValid u p h)

-- A plan that NewPlan accepts keeps a name and a number of sessions that is not negative, through
-- any sequence of updates, refused ones included, and the result is accepted by RehydratePlan.
new_plan-IsValid :
    (params : NewPlanParams) (now : ℤ) (us : List PlanUpdate) {p : Plan}
    → new_plan params now ≡ ok p
    → IsValid (updates us p) × (rehydrate_plan (updates us p) ≡ ok (updates us p))
unfolding new_plan rehydrate_plan
new_plan-IsValid params now us {p} e =
    let h = updates-IsValid us p (ground arith) in (h, ground arith)
