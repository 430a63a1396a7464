-- ===== src/Redis/Sessions/Repository/Usage.antt =====
-- What UpdateUsage of session_repository.go and its script do to the counters of a session.
use nexora_core.Prelude.{
  ℕ, String, str_eq, subst, sym, some, if◌then◌else◌, ◌≡◌, ◌≢◌, inl, inr, true, false, ◌&&◌, Option,
  none, List, [], ◌∷◌, Dict, lookup, arith, refl, Bool-cases, ap, ◌∙◌, ◌^◌,
}
use nexora_core.Prelude.Int.{ℤ, pos, negsuc, ◌+ℤ◌, ◌-ℤ◌, ◌≤ℤ◌, ◌<ℤ◌, ltb_ℤ, int_laws}
use nexora_core.Domain.Errors.{ok, err, plain}
use nexora_core.Domain.Session.{ActiveSession, UsageDelta}
use nexora_core.Redis.Client.{Delivery, delivered}
use nexora_core.Redis.Sessions.Script.{
  SessionRedis, SessionLaws, Field, number, text, number_of, or_else, is_missing, is_locked_status,
  is_counter, IsSmall, judge_usage, mark_usage, record_usage, update_usage_script,
}
use nexora_core.Redis.Sessions.Repository.{
  session_key, session_fields, to_unix, start_session, update_usage, interpret,
}

-- What the two tests of the script leave when they fail.
room :
    (quota total : ℤ)
    → ltb_ℤ (pos 0) quota && ltb_ℤ quota total ≡ false
    → pos 0 <ℤ quota
    → total ≤ℤ quota
room quota total h positive = ground arith

alive :
    (expires now : ℤ)
    → ltb_ℤ (pos 0) expires && ltb_ℤ expires now ≡ false
    → ltb_ℤ (pos 0) expires ≡ true
    → now ≤ℤ expires
alive expires now h positive = ground arith

-- Every part of a small total is small.
parts-IsSmall :
    (i o : ℤ) (a b : ℕ)
    → pos 0 ≤ℤ i
    → pos 0 ≤ℤ o
    → i +ℤ o +ℤ pos a +ℤ pos b ≤ℤ pos (2 ^ 53)
    → (IsSmall i × IsSmall o × IsSmall (i +ℤ o))
      × (IsSmall (pos a) × IsSmall (i +ℤ o +ℤ pos a) × IsSmall (pos b))
      × (IsSmall (i +ℤ o +ℤ pos a +ℤ pos b) × IsSmall (i +ℤ pos a) × IsSmall (o +ℤ pos b))
unfolding ◌+ℤ◌
parts-IsSmall (pos i) (pos o) a b hi ho h = ground arith
parts-IsSmall (pos i) (negsuc o) a b hi ho h = ground arith
parts-IsSmall (negsuc i) o a b hi ho h = ground arith

module _ (r : SessionRedis) (laws : SessionLaws r) (mac_string : List ℕ → String)
    (new_mac : String → Option (List ℕ)) (new_user_id : String → Option String) where
  -- UpdateUsage never counts anything for a session that StartSession stored: StartSession writes
  -- no status, the script answers -2 to a session without one, and UpdateUsage returns the error
  -- of an unexpected signal and leaves the store as it was. The store had no status under the key
  -- of the session before.
  pub start-update_usage :
      (session : ActiveSession) (delta : UsageDelta) (now : ℤ) (d : Delivery) (s : r.Store)
      → lookup "status" (r.hgetall (session_key session.id) s) ≡ none
      → let s₁ = (start_session r mac_string new_mac new_user_id delivered session s).1 in
        update_usage r mac_string new_mac new_user_id delivered d now session.id delta s₁
        ≡ (err (plain "session_repository: unexpected signal -2"), s₁)
  unfolding start_session update_usage update_usage_script judge_usage session_fields interpret
  start-update_usage session delta now d s fresh =
      let key = session_key session.id in
      let fields = session_fields r mac_string new_mac new_user_id session in
      let status : lookup "status" (r.hgetall key (r.expire key (pos 86400) (r.hset key fields s)))
          ≡ none =
        rw (laws.get_expire key (pos 86400) (r.hset key fields s) (omega arith))
          (rw (laws.get_hset key "status" fields s) fresh) in
      rw (status, update_usage_script) refl

  -- The exact counters of a stored session, its quota among them.
  abbrev pub counter : String → String → r.Store → ℤ
  counter field id s = number_of (lookup field (r.hgetall (session_key id) s))

  -- The total that the script compares with the quota.
  abbrev projected : String → UsageDelta → r.Store → ℤ
  projected id delta s =
      counter "used_in" id s
      +ℤ counter "used_out" id s
      +ℤ pos delta.input_octets
      +ℤ pos delta.output_octets

  -- The stored numbers are numbers that a double of Lua holds exactly, and so are the new total and
  -- the time.
  pub record IsExact (id : String) (delta : UsageDelta) (now : ℤ) (s : r.Store) : Type 0 where
    pub in_number : is_counter (lookup "used_in" (r.hgetall (session_key id) s)) ≡ true
    pub out_number : is_counter (lookup "used_out" (r.hgetall (session_key id) s)) ≡ true
    pub in_small : pos 0 ≤ℤ counter "used_in" id s
    pub out_small : pos 0 ≤ℤ counter "used_out" id s
    pub total_small : projected id delta s ≤ℤ pos (2 ^ 53)
    pub quota_small : IsSmall (counter "quota" id s)
    pub expiry_small : IsSmall (counter "expires_at" id s)
    pub time_small : IsSmall (to_unix now)

  -- The script on exact numbers.
  script_exact :
      (id : String) (delta : UsageDelta) (now : ℤ) (s : r.Store)
      → IsExact id delta now s
      → update_usage_script r
          (session_key id)
          (pos delta.input_octets)
          (pos delta.output_octets)
          (to_unix now)
          (pos 3600)
          s
        ≡ judge_usage r
            (session_key id)
            (lookup "status" (r.hgetall (session_key id) s))
            (counter "quota" id s)
            (counter "expires_at" id s)
            (projected id delta s)
            (pos delta.input_octets)
            (pos delta.output_octets)
            (to_unix now)
            (pos 3600)
            s
  unfolding update_usage_script
  script_exact id delta now s x =
      let i = counter "used_in" id s in
      let o = counter "used_out" id s in
      let a = pos delta.input_octets in
      let b = pos delta.output_octets in
      let ((si, so, sio), (sa, sioa, sb), (sall, si_a, so_b)) =
        parts-IsSmall i o delta.input_octets delta.output_octets x.in_small x.out_small
          x.total_small in
      rw
        (
          update_usage_script,
          laws.double_exact i si,
          laws.double_exact o so,
          laws.double_exact (i +ℤ o) sio,
          laws.double_exact a sa,
          laws.double_exact (i +ℤ o +ℤ a) sioa,
          laws.double_exact b sb,
          laws.double_exact (i +ℤ o +ℤ a +ℤ b) sall,
          laws.double_exact (counter "quota" id s) x.quota_small,
          laws.double_exact (counter "expires_at" id s) x.expiry_small,
          laws.double_exact (to_unix now) x.time_small,
          laws.double_exact (pos 3600) (omega arith, omega arith),
        )
        refl

  -- The two increments of a run, from the store before them to the store after them.
  record Counted (id : String) (a b : ℤ) (s u : r.Store) : Type 0 where
    middle : r.Store
    first : r.hincrby (session_key id) "used_in" a s ≡ some middle
    second : r.hincrby (session_key id) "used_out" b middle ≡ some u

  -- A field after both increments.
  field-Counted :
      (id g : String) (a b : ℤ) (s u : r.Store)
      → Counted id a b s u
      → lookup g (r.hgetall (session_key id) u) ≡ (
          if str_eq "used_out" g
          then some (number (counter "used_out" id s +ℤ b))
          else if str_eq "used_in" g
          then some (number (counter "used_in" id s +ℤ a))
          else lookup g (r.hgetall (session_key id) s))
  field-Counted id g a b s u c =
      let key = session_key id in
      let untouched : lookup "used_out" (r.hgetall key c.middle)
          ≡ lookup "used_out" (r.hgetall key s) =
        laws.get_hincrby key "used_in" "used_out" a s c.middle c.first in
      laws.get_hincrby key "used_out" g b c.middle u c.second
      ∙ rw (untouched, laws.get_hincrby key "used_in" g a s c.middle c.first) refl

  -- Small sums are accepted.
  counted :
      (id : String) (delta : UsageDelta) (now : ℤ) (s : r.Store)
      → IsExact id delta now s
      → (u : r.Store) × Counted id (pos delta.input_octets) (pos delta.output_octets) s u
  counted id delta now s x =
      let key = session_key id in
      let (left, (sa, sioa, sb), (sall, si_a, so_b)) =
        parts-IsSmall (counter "used_in" id s) (counter "used_out" id s) delta.input_octets
          delta.output_octets x.in_small x.out_small x.total_small in
      let (t, first) =
        laws.hincrby_answers key "used_in" (pos delta.input_octets) s x.in_number sa si_a in
      let untouched : lookup "used_out" (r.hgetall key t) ≡ lookup "used_out" (r.hgetall key s) =
        laws.get_hincrby key "used_in" "used_out" (pos delta.input_octets) s t first in
      let (u, second) =
        laws.hincrby_answers key "used_out" (pos delta.output_octets) t
          (ap is_counter untouched ∙ x.out_number) sb
          (subst (λ (f : Option Field). IsSmall (number_of f +ℤ pos delta.output_octets))
            (sym untouched) so_b) in
      (u, record { middle = t; first = first; second = second })

  -- What is read under the key after the last step of the script.
  field-mark_usage :
      (id g : String) (now expires : ℤ) (u : r.Store)
      → (ltb_ℤ (pos 0) expires ≡ true → now ≤ℤ expires)
      → lookup g
          (r.hgetall (session_key id) (mark_usage r (session_key id) now (pos 3600) expires u))
        ≡ or_else
            (lookup g (("last_update", number now) ∷ ("status", text "active") ∷ []))
            (lookup g (r.hgetall (session_key id) u))
  field-mark_usage id g now expires u alive = elim (Bool-cases (ltb_ℤ (pos 0) expires)) [
    | inl h ↦
        rw
          (
            h,
            laws.get_expire (session_key id) (expires -ℤ now +ℤ pos 3600)
                (r.hset (session_key id)
                  (("last_update", number now) ∷ ("status", text "active") ∷ []) u)
                (omega (int_laws, alive h)),
          )
          (laws.get_hset _ _ _ _)
    | inr h ↦ rw h (laws.get_hset _ _ _ _)
  ]

  accepted_usage :
      (id : String) (delta : UsageDelta) (now : ℤ) (s u : r.Store)
      → Counted id (pos delta.input_octets) (pos delta.output_octets) s u
      → (ltb_ℤ (pos 0) (counter "expires_at" id s) ≡ true
          → to_unix now ≤ℤ counter "expires_at" id s)
      → ltb_ℤ (pos 0) (counter "quota" id s) && ltb_ℤ (counter "quota" id s) (projected id delta s)
        ≡ false
      → let s' =
          r.expire (session_key id) (pos 1800) (
            mark_usage r (session_key id) (to_unix now) (pos 3600) (counter "expires_at" id s) u) in
        (counter "used_in" id s' ≡ counter "used_in" id s +ℤ pos delta.input_octets)
        × (counter "used_out" id s' ≡ counter "used_out" id s +ℤ pos delta.output_octets)
        × (pos 0 <ℤ counter "quota" id s'
            → counter "used_in" id s' +ℤ counter "used_out" id s' ≤ℤ counter "quota" id s')
  accepted_usage id delta now s u c alive q =
      let a = pos delta.input_octets in
      let b = pos delta.output_octets in
      let key = session_key id in
      let n = to_unix now in
      let marked = mark_usage r key n (pos 3600) (counter "expires_at" id s) u in
      let whole = laws.get_expire key (pos 1800) marked (omega arith) in
      let field = λ (g : String). field-mark_usage id g n (counter "expires_at" id s) u alive in
      let added = λ (g : String). field-Counted id g a b s u c in
      let in_new : counter "used_in" id marked ≡ counter "used_in" id s +ℤ a =
        ap number_of (field "used_in" ∙ added "used_in") in
      let out_new : counter "used_out" id marked ≡ counter "used_out" id s +ℤ b =
        ap number_of (field "used_out" ∙ added "used_out") in
      let same : counter "quota" id marked ≡ counter "quota" id s =
        ap number_of (field "quota" ∙ added "quota") in
      rw whole (
        in_new,
        out_new,
        λ h.
            rw (in_new, out_new, same)
              (omega (int_laws, room _ (projected id delta s) q (rw same at h))),
      )

  -- What UpdateUsage with both round trips arriving does to the counters of a session, when the stored
  -- counters are numbers, and they, the stored quota and expiry, the new total and the time in seconds
  -- are from 0 to 2 ^ 53, which a double of Lua holds exactly: a success adds exactly the two amounts,
  -- and then a positive quota bounds the sum of the counters; an error leaves the counters as they were.
  pub update_usage_lem :
      (id : String) (delta : UsageDelta) (now : ℤ) (s : r.Store)
      → IsExact id delta now s
      → let (answer, s') =
          update_usage r mac_string new_mac new_user_id delivered delivered now id delta s in
        (answer ≡ ok tt
          → (counter "used_in" id s' ≡ counter "used_in" id s +ℤ pos delta.input_octets)
            × (counter "used_out" id s' ≡ counter "used_out" id s +ℤ pos delta.output_octets)
            × (pos 0 <ℤ counter "quota" id s'
                → counter "used_in" id s' +ℤ counter "used_out" id s' ≤ℤ counter "quota" id s'))
        × (answer ≢ ok tt
            → (counter "used_in" id s' ≡ counter "used_in" id s)
              × (counter "used_out" id s' ≡ counter "used_out" id s))
  unfolding update_usage judge_usage record_usage interpret
  update_usage_lem id delta now s x =
      let key = session_key id in
      let session = r.hgetall key s in
      let expires = number_of (lookup "expires_at" session) in
      let quota = number_of (lookup "quota" session) in
      let (u, c) = counted id delta now s x in
      let exact = script_exact id delta now s x in
      elim (Bool-cases (is_missing (lookup "status" session))) [
        | inl a ↦ rw exact (rw (a, judge_usage) ((λ h. absurd cc), (λ h. (refl, refl))))
        | inr a ↦ elim (Bool-cases (is_locked_status (lookup "status" session))) [
          | inl b ↦ rw exact (rw (a, b, judge_usage) ((λ h. absurd cc), (λ h. (refl, refl))))
          | inr b ↦ elim (Bool-cases (ltb_ℤ (pos 0) expires && ltb_ℤ expires (to_unix now))) [
            | inl e ↦ rw exact (
                rw (a, b, e, judge_usage)
                  (
                    (λ h. absurd cc),
                    (λ h. (
                      ap number_of (laws.get_hset _ _ _ _),
                      ap number_of (laws.get_hset _ _ _ _),
                    )),
                  ))
            | inr e ↦
                elim (Bool-cases (ltb_ℤ (pos 0) quota && ltb_ℤ quota (projected id delta s))) [
                  | inl q ↦ rw exact (
                      rw (a, b, e, q, judge_usage)
                        (
                          (λ h. absurd cc),
                          (λ h. (
                            ap (λ (f : Dict Field). number_of (lookup "used_in" f))
                                (laws.get_log _ _ _ _ _),
                            ap (λ (f : Dict Field). number_of (lookup "used_out" f))
                                (laws.get_log _ _ _ _ _),
                          )),
                        ))
                  | inr q ↦ rw exact (
                      rw (a, b, e, q, judge_usage)
                        (rw (record_usage, c.first, c.second)
                          (
                            (λ h.
                                accepted_usage id delta now s u c (alive expires (to_unix now) e)
                                  q),
                            (λ h. absurd (h refl)),
                          )))
                ]
          ]
        ]
      ]
