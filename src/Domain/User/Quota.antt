-- ===== src/Domain/User/Quota.antt =====
-- ConsumeData, CanAuthenticate and the two switches of internal/core/domain/Users.go.
use nexora_core.Prelude.{
  ℕ, ◌+◌, ◌≤◌, ◌<◌, ◌^◌, ◌≡◌, ◌≢◌, ◌↔◌, ◌⊎◌, true, false, none, some, arith, Option-cases, inl, inr,
}
use nexora_core.Prelude.Int.{ℤ, ◌≤ℤ◌}
use nexora_core.Domain.Errors.{domain, err_user_inactive}
use nexora_core.Domain.User.{User, can_authenticate, consume_data}

-- For a user whose counters are 64-bit words, ConsumeData accepts exactly the amounts that keep
-- the exact (unwrapped) sum within the quota, and the amount 0.
consume_data-none_iff :
    (bytes : ℕ) (now : ℤ) (u : User)
    → bytes < 2 ^ 64
    → u.used_data < 2 ^ 64
    → u.data_quota < 2 ^ 64
    → ((consume_data bytes now u).0 ≡ none) ↔ ((bytes ≡ 0) ⊎ (u.used_data + bytes ≤ u.data_quota))
unfolding consume_data
consume_data-none_iff bytes now u b used quota = (λ e. ground arith, λ e. ground arith)

-- For 64-bit counters, an accepted ConsumeData adds the exact amount, and a refused one changes
-- nothing.
pub consume_data_effect :
    (bytes : ℕ) (now : ℤ) (u : User)
    → bytes < 2 ^ 64
    → u.used_data < 2 ^ 64
    → (((consume_data bytes now u).0 ≡ none)
        → (consume_data bytes now u).1.used_data ≡ u.used_data + bytes)
      × (((consume_data bytes now u).0 ≢ none) → (consume_data bytes now u).1 ≡ u)
unfolding consume_data
consume_data_effect bytes now u b used = (λ e. ground arith, λ e. ground arith)

-- What CanAuthenticate answers: nil exactly for an active account whose expiry date, if any, is
-- not before now; an inactive account is reported first, whatever its date.
can_authenticate_lem :
    (now : ℤ) (u : User)
    → ((can_authenticate now u ≡ none)
        ↔ ((u.active ≡ true) × ((t : ℤ) → u.expired_at ≡ some t → now ≤ℤ t)))
      × (u.active ≡ false → can_authenticate now u ≡ some (domain err_user_inactive))
unfolding can_authenticate
can_authenticate_lem now u = (
  (
    λ e. (ground arith, λ t h. ground arith),
    λ h. elim (Option-cases u.expired_at) [
      | inl never ↦ ground arith
      | inr (t, e) ↦ ground (arith, h.1 t e)
    ],
  ),
  λ h. ground arith,
)
