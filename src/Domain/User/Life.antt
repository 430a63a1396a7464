-- ===== src/Domain/User/Life.antt =====
-- The life of a user of internal/core/domain/Users.go: every sequence of its mutating methods.
use nexora_core.Prelude.{ℕ, ◌+◌, ◌≤◌, ◌%◌, ◌^◌, ◌≡◌, ◌⊎◌, List, arith}
use nexora_core.Prelude.Int.{ℤ, pos, ◌≤ℤ◌}
use nexora_core.Domain.Errors.{ok}
use nexora_core.Domain.User.{
  User, NewUserParams, new_user, activate, deactivate, expire, bind_mac, consume_data,
}

-- One call of a method that may change the user, with the clock readings it makes.
pub data UserStep : User → User → Type 0 where
  activate_step : (now now' : ℤ) (u : User) → UserStep u (activate now now' u).1
  deactivate_step : (now : ℤ) (u : User) → UserStep u (deactivate now u)
  expire_step : (at now now' : ℤ) (u : User) → UserStep u (expire at now now' u).1
  bind_mac_step : (mac : List ℕ) (now : ℤ) (u : User) → UserStep u (bind_mac mac now u)
  consume_step : (bytes : ℕ) (now : ℤ) (u : User) → UserStep u (consume_data bytes now u).1

pub data UserReach (u : User) : User → Type 0 where
  here : UserReach u u
  next : {v w : User} → UserReach u v → UserStep v w → UserReach u w

-- The usage is within the quota, and the number of sessions is not negative.
pub record IsWithinQuota (u : User) : Type 0 where
  pub used : u.used_data ≤ u.data_quota
  pub sessions : pos 0 ≤ℤ u.max_sessions

UserStep-IsWithinQuota : {u v : User} → UserStep u v → IsWithinQuota u → IsWithinQuota v
unfolding activate deactivate expire bind_mac consume_data
UserStep-IsWithinQuota (activate_step n n' u) h = ground arith
UserStep-IsWithinQuota (deactivate_step n u) h = ground arith
UserStep-IsWithinQuota (expire_step at n n' u) h = ground arith
UserStep-IsWithinQuota (bind_mac_step m n u) h = ground arith
UserStep-IsWithinQuota (consume_step b n u) h = ground arith

UserReach-IsWithinQuota : {u v : User} → IsWithinQuota u → UserReach u v → IsWithinQuota v
UserReach-IsWithinQuota h here = h
UserReach-IsWithinQuota h (next r s) = UserStep-IsWithinQuota s (UserReach-IsWithinQuota h r)

-- A user that NewUser accepts never exceeds its data quota and never has a negative number of
-- sessions, whatever methods are called on it in whatever order and at whatever times.
pub new_user-IsWithinQuota :
    (p : NewUserParams) (now : ℤ) {u v : User}
    → new_user p now ≡ ok u
    → UserReach u v
    → IsWithinQuota v
unfolding new_user
new_user-IsWithinQuota p now e r = UserReach-IsWithinQuota (ground arith) r

-- What a call may do to the version: leave the whole user as it is, or add one (modulo 2 ^ 64).
-- In both cases the identity, the tenant, the role and the quota stay.
pub step_versioned :
    {u v : User}
    → UserStep u v
    → ((v ≡ u) ⊎ (v.version ≡ (u.version + 1) % 2 ^ 64))
      × (v.id ≡ u.id)
      × (v.tenant_id ≡ u.tenant_id)
      × (v.role ≡ u.role)
      × (v.data_quota ≡ u.data_quota)
unfolding activate deactivate expire bind_mac consume_data
step_versioned (activate_step n n' u) = ground arith
step_versioned (deactivate_step n u) = ground arith
step_versioned (expire_step at n n' u) = ground arith
step_versioned (bind_mac_step m n u) = ground arith
step_versioned (consume_step b n u) = ground arith
