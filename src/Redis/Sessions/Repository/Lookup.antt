-- ===== src/Redis/Sessions/Repository/Lookup.antt =====
-- What GetByID and Exists of session_repository.go find after StartSession and TerminateSession.
use nexora_core.Prelude.{
  ℕ, String, ◌≡◌, false, is_empty, Option, none, some, List, [], ◌∷◌, Dict, lookup, arith,
  if◌then◌else◌,
}
use nexora_core.Prelude.Int.{ℤ, pos, ◌+ℤ◌, leb_ℤ, time_sub}
use nexora_core.Domain.Errors.{ok, err, domain, err_session_expired}
use nexora_core.Domain.Session.{ActiveSession}
use nexora_core.Redis.Client.{delivered}
use nexora_core.Redis.Sessions.Script.{SessionRedis, SessionLaws, Field, text}
use nexora_core.Redis.Sessions.Repository.{
  session_key, session_fields, to_unix, from_unix, start_session, get_by_id, hydrate, rehydrate,
  terminate_session, exists,
}

module _ (r : SessionRedis) (laws : SessionLaws r) (mac_string : List ℕ → String)
    (new_mac : String → Option (List ℕ)) (new_user_id : String → Option String) where
  -- The text of a session's MAC address, as StartSession writes it.
  abbrev pub mac_text : ActiveSession → String
  mac_text s = elim s.mac_addr [ none ↦ "" | some m ↦ mac_string m ]

  -- The end of the lease, as it comes back from the store in whole seconds.
  abbrev pub lease_end : ActiveSession → ℤ
  lease_end s = from_unix (to_unix (s.last_alive_at +ℤ s.lease_duration))

  -- What GetByID makes of a stored session: the identity, the counters and the data quota of the
  -- session, the times in whole seconds, the end of the lease for the last sign of life and the
  -- time left for the lease, no time quota and no rates.
  abbrev pub seen : ℤ → ActiveSession → ActiveSession
  seen now s = record s {
    policy = record s.policy { max_upload = 0; max_download = 0; time_quota = pos 0 };
    session_time = pos 0;
    started_at = from_unix (to_unix s.started_at);
    last_alive_at = lease_end s;
    lease_duration = time_sub (lease_end s) now;
  }

  rehydrate_found :
      (id user_id : String) (now : ℤ) (fields : Dict Field)
      → lookup "user_id" fields ≡ some (text user_id)
      → new_user_id user_id ≡ some user_id
      → rehydrate r mac_string new_mac new_user_id id now fields
        ≡ hydrate r mac_string new_mac new_user_id id now user_id fields
  unfolding rehydrate
  rehydrate_found id user_id now [] e valid = cc
  rehydrate_found id user_id now (f ∷ fs) e valid = rw (e, valid, rehydrate)

  -- A session that StartSession stored is found by GetByID until its lease ends, with its
  -- identity, counters and data quota, and after that it is expired; the store stays as it is.
  -- NewUserID accepts the user id as it is, and the MAC address reads back from its text.
  start-get_by_id :
      (session : ActiveSession) (now : ℤ) (s : r.Store)
      → new_user_id session.user_id ≡ some session.user_id
      → (if is_empty (mac_text session) then none else new_mac (mac_text session))
        ≡ session.mac_addr
      → let s₁ = (start_session r mac_string new_mac new_user_id delivered session s).1 in
        get_by_id r mac_string new_mac new_user_id delivered now session.id s₁ ≡ (
          if leb_ℤ (time_sub (lease_end session) now) (pos 0)
              then err (domain err_session_expired)
              else ok (seen now session),
          s₁,
        )
  unfolding start_session get_by_id session_fields hydrate
  start-get_by_id session now s valid mac =
      let key = session_key session.id in
      let fields = session_fields r mac_string new_mac new_user_id session in
      let s₁ = r.expire key (pos 86400) (r.hset key fields s) in
      let same : r.hgetall key s₁ ≡ r.hgetall key (r.hset key fields s) =
        laws.get_expire key (pos 86400) (r.hset key fields s) (omega arith) in
      let at = λ (f : String). laws.get_hset key f fields s in
      rw same (
        rw (rehydrate_found session.id session.user_id now _ (at "user_id") valid) (
          rw (
            at "expires_at",
            at "mac",
            at "nas_ip",
            at "quota",
            at "used_in",
            at "used_out",
            at "started_at",
            mac,
          )))

  -- After TerminateSession a session does not exist, and GetByID answers that it has expired.
  terminate-get_by_id :
      (id : String) (now : ℤ) (s : r.Store)
      → let s₁ = (terminate_session r mac_string new_mac new_user_id delivered id s).1 in
        (exists r mac_string new_mac new_user_id delivered id s₁ ≡ (ok false, s₁))
        × (get_by_id r mac_string new_mac new_user_id delivered now id s₁
            ≡ (err (domain err_session_expired), s₁))
  unfolding terminate_session exists get_by_id rehydrate
  terminate-get_by_id id now s =
      let gone = laws.get_del (session_key id) s in (rw gone, rw (gone, rehydrate))
