-- ===== src/Redis/Protection/Tests.antt =====
-- Runs of auth_protection.go on a store that is a map from keys to counters.
use nexora_core.Prelude.{ℕ, ◌+◌, List, [], ◌∷◌, Dict, lookup, insert, erase}
use nexora_core.Prelude.Int.{pos, negsuc}
use nexora_core.Redis.Client.{delivered, lost_request}
use nexora_core.Redis.Protection.{Counters, AuthProtectionConfig, or_zero}
use nexora_core.Redis.Protection.Lockout.{Event, failed, expired}

abbrev counters : Counters
counters = record {
  Store = Dict ℕ;
  value = λ k s. lookup k s;
  ttl = λ k s. negsuc 0;
  incr = λ k s. (or_zero (lookup k s) + 1, insert k (or_zero (lookup k s) + 1) s);
  expire = λ k d s. s;
  del = λ k s. erase k s;
}

abbrev raw : AuthProtectionConfig
raw = record { max_failed_attempts = pos 0; lock_duration = pos 0; window_duration = pos 0 }

-- Five attempts after an expiry, the second with a lost expiry call.
abbrev runs : List Event
runs =
    failed delivered delivered
    ∷ expired
    ∷ failed delivered delivered
    ∷ failed (lost_request "timeout") delivered
    ∷ failed delivered delivered
    ∷ failed delivered delivered
    ∷ failed delivered delivered
    ∷ []
