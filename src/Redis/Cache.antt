-- ===== src/Redis/Cache.antt =====
-- internal/adapters/secondary/redis/cache.go and nas_cache.go, and the service over the former,
-- internal/core/services/cache_service.go. A server holds texts and the JSON of NAS objects; JSON
-- and the printing of an IP address are the parameter `NasCodec`; the outcome of each round trip is
-- an argument. The times to live are left out.
pub mod Laws
mod Tests
use nexora_core.Prelude.{
  ℕ, String, ◌<>◌, Bool, true, false, is_empty, Option, none, some, List, [], Dict, lookup, insert,
  erase, if◌then◌else◌,
}
use nexora_core.Domain.Errors.{Error, plain, wrap, Result, ok, err}
use nexora_core.Domain.Nas.{Nas}
use nexora_core.Redis.Client.{
  Delivery, Action, pure, fail, lift, attempt, ◌>>=◌, ◌>>◌, call, query, send,
}

abbrev pub TextRedis : Type 0
TextRedis = Dict String

-- `CacheRepository.Set`, `Delete` and `SetNX`
unfoldable pub set : String → String → Delivery → Action TextRedis (Unit {0})
set key value d = send d (insert key value)

unfoldable pub delete : String → Delivery → Action TextRedis (Unit {0})
delete key d = send d (erase key)

unfoldable pub set_if_absent : String → String → TextRedis → Bool × TextRedis
set_if_absent key value w = elim (lookup key w) [
  | some v ↦ (false, w)
  | none ↦ (true, insert key value w)
]

unfoldable pub set_nx : String → String → Delivery → Action TextRedis Bool
set_nx key value d = call d (set_if_absent key value)

-- `redis.Nil` is an error of `Get`.
abbrev pub redis_nil : Error
redis_nil = plain "redis: nil"

abbrev pub found_or_nil : {A : Type 0} → Option A → Result A
found_or_nil none = err redis_nil
found_or_nil (some v) = ok v

-- `CacheRepository.Get`
unfoldable pub get : String → Delivery → Action TextRedis String
get key d = do v ← query d (lookup key); lift (found_or_nil v)

abbrev pub session_key : String → String
session_key jti = "session:" <> jti

abbrev pub blacklist_key : String → String
blacklist_key jti = "blacklist:" <> jti

unfoldable pub store_session : String → String → Delivery → Action TextRedis (Unit {0})
store_session jti user d = set (session_key jti) user d

unfoldable pub blacklist_token : String → Delivery → Action TextRedis (Unit {0})
blacklist_token jti d = set (blacklist_key jti) "1" d

abbrev is_found : {A : Type 0} → Result A → Bool
is_found (ok v) = true
is_found (err e) = false

-- Every error, not only a missing key, means that the token is not in the list.
unfoldable pub is_token_blacklisted : String → Delivery → Action TextRedis Bool
is_token_blacklisted jti d = do v ← attempt (get (blacklist_key jti) d); pure (is_found v)

pub record NasCodec : Type 1 where
  pub Data : Type 0
  pub marshal : Nas → Result Data
  pub unmarshal : Data → Result Nas
  pub show_ip : Option (List ℕ) → String

abbrev pub nas_key : String → String
nas_key ip = "nas:ip:" <> ip

abbrev pub err_nas_not_found : Error
err_nas_not_found = plain "nas_cache: NAS not found in cache"

module _ (c : NasCodec) where
  open c use {Data, marshal, unmarshal, show_ip}

  -- The error of a step with a message before it.
  abbrev pub or_wrap : {A : Type 0} → String → Result A → Result A
  or_wrap message (ok a) = ok a
  or_wrap message (err e) = err (wrap message e "")

  unfoldable pub set_nas : Option Nas → Delivery → Action (Dict Data) (Unit {0})
  set_nas none d = fail (plain "nas_cache: cannot cache nil NAS")
  set_nas (some nas) d = do
    text ← lift (or_wrap "nas_cache: marshal failed: " (marshal nas))
    r ← attempt (send d (insert (nas_key (show_ip nas.ip_address)) text))
    lift (or_wrap "nas_cache: redis set failed: " r)

  abbrev pub checked_nas : String → Result Nas → Result Nas
  checked_nas ip (err e) = err (wrap "nas_cache: unmarshal failed: " e "")
  checked_nas ip (ok nas) =
      if is_empty nas.id then err (plain ("nas_cache: corrupted data for IP " <> ip)) else ok nas

  unfoldable pub read_nas : String → Result (Option Data) → Result Nas
  read_nas ip (err e) = err (wrap "nas_cache: redis get failed: " e "")
  read_nas ip (ok none) = err err_nas_not_found
  read_nas ip (ok (some text)) = checked_nas ip (unmarshal text)

  unfoldable pub get_nas : String → Delivery → Action (Dict Data) Nas
  get_nas ip d = do v ← attempt (query d (lookup (nas_key ip))); lift (read_nas ip v)

  unfoldable pub delete_nas : String → Delivery → Action (Dict Data) (Unit {0})
  delete_nas ip d = do
    r ← attempt (send d (erase (nas_key ip)))
    lift (or_wrap "nas_cache: redis delete failed: " r)
