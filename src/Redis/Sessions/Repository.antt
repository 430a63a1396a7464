-- ===== src/Redis/Sessions/Repository.antt =====
-- internal/adapters/secondary/redis/session_repository.go. The printing and parsing of a MAC
-- address and NewUserID (google/uuid) are parameters; clock readings and the outcomes of the round
-- trips are arguments. An unsigned field that does not parse reads as 0, as in the source.
mod Tests
pub mod Usage
pub mod Lookup
use nexora_core.Prelude.{
  ℕ, zero, suc, ◌*◌, ◌/◌, String, ◌<>◌, Bool, true, false, is_empty, Option, none, some, List, [],
  ◌∷◌, Dict, lookup, if◌then◌else◌,
}
use nexora_core.Prelude.Int.{ℤ, pos, negsuc, ◌+ℤ◌, ◌-ℤ◌, leb_ℤ, time_sub, pos_part, neg_part, sub_ℕ}
use nexora_core.Domain.Errors.{
  Error, domain, plain, wrap, Result, ok, err, err_session_expired, err_quota_exceeded,
}
use nexora_core.Domain.Session.{ActiveSession, UsageDelta, PolicySnapshot}
use nexora_core.Redis.Client.{
  Delivery, Action, pure, fail, ignore, attempt, ◌>>=◌, ◌>>◌, call, query, send,
}
use nexora_core.Redis.Sessions.Script.{
  SessionRedis, Field, number, text, number_of, update_usage_script,
}

-- The error that the server answers for a script that fails, without its text.
abbrev pub script_refused : Error
script_refused = plain "ERR user_script"

abbrev pub session_key : String → String
session_key id = "session:" <> id

abbrev pub second : ℕ
second = 1000000000

-- The Unix epoch, in nanoseconds since Go's zero time.
abbrev pub epoch : ℤ
epoch = pos (62135596800 * second)

-- `t.Unix()`, which rounds down.
unfoldable pub unix_floor : ℤ → ℤ
unix_floor (pos n) = pos (n / second)
unix_floor (negsuc n) = negsuc (n / second)

unfoldable pub to_unix : ℤ → ℤ
unfolding unix_floor
to_unix t = unix_floor (t -ℤ epoch)

-- `time.Unix(n, 0)`
unfoldable pub from_unix : ℤ → ℤ
from_unix n = epoch +ℤ sub_ℕ (pos_part n * second) (neg_part n * second)

abbrev pub text_of : Option Field → String
text_of (some (text t)) = t
text_of _ = ""

-- `strconv.ParseUint` with the error dropped.
abbrev pub unsigned_of : Option Field → ℕ
unsigned_of (some (number (pos n))) = n
unsigned_of _ = 0

module _ (r : SessionRedis) (mac_string : List ℕ → String) (new_mac : String → Option (List ℕ))
    (new_user_id : String → Option String) where
  open r use {Store, hgetall, hset, expire, del}

  unfoldable pub session_fields : ActiveSession → Dict Field
  session_fields s =
      ("user_id", text s.user_id)
      ∷ ("nas_ip", text s.nas_ip)
      ∷ ("mac", text (elim s.mac_addr [ none ↦ "" | some m ↦ mac_string m ]))
      ∷ ("used_in", number (pos s.input_octets))
      ∷ ("used_out", number (pos s.output_octets))
      ∷ ("quota", number (pos s.policy.data_quota))
      ∷ ("expires_at", number (to_unix (s.last_alive_at +ℤ s.lease_duration)))
      ∷ ("started_at", number (to_unix s.started_at))
      ∷ []

  unfoldable pub start_session : Delivery → ActiveSession → Action Store (Unit {0})
  start_session d s =
      send d
        (λ t. expire (session_key s.id) (pos 86400) (hset (session_key s.id) (session_fields s) t))

  -- The session that the fields of a hash stand for, if its lease is not over.
  unfoldable pub hydrate : String → ℤ → String → Dict Field → Result ActiveSession
  hydrate id now user_id fields =
      let expires_at = from_unix (number_of (lookup "expires_at" fields)) in
      let remaining = time_sub expires_at now in
      let mac = text_of (lookup "mac" fields) in
      if leb_ℤ remaining (pos 0)
      then err (domain err_session_expired)
      else ok (record {
        id = id;
        user_id = user_id;
        nas_ip = text_of (lookup "nas_ip" fields);
        mac_addr = if is_empty mac then none else new_mac mac;
        policy = record {
          data_quota = unsigned_of (lookup "quota" fields);
          max_upload = 0;
          max_download = 0;
          time_quota = pos 0;
        };
        input_octets = unsigned_of (lookup "used_in" fields);
        output_octets = unsigned_of (lookup "used_out" fields);
        session_time = pos 0;
        started_at = from_unix (number_of (lookup "started_at" fields));
        last_alive_at = expires_at;
        lease_duration = remaining;
      })

  unfoldable pub rehydrate : String → ℤ → Dict Field → Result ActiveSession
  rehydrate id now [] = err (domain err_session_expired)
  rehydrate id now (f ∷ fs) = elim (new_user_id (text_of (lookup "user_id" (f ∷ fs)))) [
    | none ↦ err (plain "session_repository: corrupted user_id")
    | some user_id ↦ hydrate id now user_id (f ∷ fs)
  ]

  unfoldable pub get_by_id : Delivery → ℤ → String → Action Store ActiveSession
  get_by_id d now id = do
    fields ← query d (hgetall (session_key id))
    λ s. (rehydrate id now fields, s)

  -- The signals of the script as errors of the domain; it sends none but 1, 0, -1, -2 and -3.
  unfoldable pub interpret : Delivery → String → ℤ → Action Store (Unit {0})
  interpret d key (pos zero) = fail (domain err_session_expired)
  interpret d key (pos (suc zero)) = ignore (send d (expire key (pos 1800)))
  interpret d key (negsuc zero) = fail (domain err_quota_exceeded)
  interpret d key (negsuc (suc zero)) = fail (plain "session_repository: unexpected signal -2")
  interpret d key (negsuc (suc (suc n))) = fail (plain "session_repository: unexpected signal -3")
  interpret d key (pos (suc (suc n))) = fail (plain "session_repository: unexpected signal")

  abbrev lua_failed : Error → Action Store (Unit {0})
  lua_failed e = fail (wrap "session_repository: lua execution failed: " e "")

  abbrev pub answer_signal : Delivery → String → Result (Option ℤ) → Action Store (Unit {0})
  answer_signal d key (err e) = lua_failed e
  answer_signal d key (ok none) = lua_failed script_refused
  answer_signal d key (ok (some signal)) = interpret d key signal

  unfoldable pub update_usage :
      Delivery → Delivery → ℤ → String → UsageDelta → Action Store (Unit {0})
  update_usage d d' now id delta = do
    answer ← attempt (
        call d (
          update_usage_script r (session_key id) (pos delta.input_octets) (pos delta.output_octets)
            (to_unix now) (pos 3600)))
    answer_signal d' (session_key id) answer

  unfoldable pub terminate_session : Delivery → String → Action Store (Unit {0})
  terminate_session d id = send d (del (session_key id))

  -- EXISTS: a hash with no field is no key.
  unfoldable pub exists : Delivery → String → Action Store Bool
  exists d id = query d (λ s. elim (hgetall (session_key id) s) [ [] ↦ false | f ∷ fs ↦ true ])
