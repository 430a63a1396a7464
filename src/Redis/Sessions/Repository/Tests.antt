-- ===== src/Redis/Sessions/Repository/Tests.antt =====
-- Runs of session_repository.go on a store that is a map from keys to hashes.
use nexora_core.Prelude.{
  ℕ, ◌-◌, ◌^◌, ◌&&◌, str_eq, sym, true, inl, inr, Bool-cases, if◌then◌else◌, ◌≡◌, ◌≢◌, String,
  Option, some, none, List, [], ◌∷◌, ◌++◌, Dict, lookup, insert, erase, lookup-insert,
  lookup-insert_same, lookup-erase_same, refl, arith, ap, ◌∙◌,
}
use nexora_core.Prelude.Int.{ℤ, pos, negsuc, ◌+ℤ◌, ◌-ℤ◌, leb_ℤ, ◌≤ℤ◌, ◌<ℤ◌}
use nexora_core.Domain.Errors.{ok, err, plain}
use nexora_core.Domain.Session.{ActiveSession, UsageDelta}
use nexora_core.Redis.Client.{delivered}
use nexora_core.Redis.Sessions.Script.{
  SessionRedis, SessionLaws, Field, number, text, number_of, or_else, is_counter, IsSmall,
}
use nexora_core.Redis.Sessions.Repository.{to_unix, start_session, update_usage}
use nexora_core.Redis.Sessions.Repository.Usage.{
  IsExact, counter, start-update_usage, update_usage_lem,
}

below : (n : ℤ) → n ≤ℤ pos (2 ^ 53) → leb_ℤ n (pos (2 ^ 63 - 1)) ≡ true
below (pos n) h = ground arith
below (negsuc n) h = ground arith

abbrev or_empty : Option (Dict Field) → Dict Field
or_empty none = []
or_empty (some h) = h

abbrev hash_at : String → Dict (Dict Field) → Dict Field
hash_at k s = or_empty (lookup k s)

-- HINCRBY refuses a text, and a sum that is no 64-bit integer.
abbrev increment : String → String → ℤ → Dict (Dict Field) → Option (Dict (Dict Field))
increment k f n s =
    let sum = number_of (lookup f (hash_at k s)) +ℤ n in
    if is_counter (lookup f (hash_at k s)) && leb_ℤ sum (pos (2 ^ 63 - 1))
    then some (insert k (insert f (number sum) (hash_at k s)) s)
    else none

abbrev hashes : SessionRedis
hashes = record {
  Store = Dict (Dict Field);
  hgetall = hash_at;
  hset = λ k fs s. insert k (fs ++ hash_at k s) s;
  hincrby = increment;
  double = λ n. n;
  expire = λ k d s. s;
  del = λ k s. erase k s;
  log_violation = λ now quota total s. s;
}

lookup-append :
    (f : String) (a b : Dict Field) → lookup f (a ++ b) ≡ or_else (lookup f a) (lookup f b)
lookup-append f [] b = refl
lookup-append f ((k, v) ∷ a) b = ground (arith, lookup-append f a b)

hash_at-insert :
    (k : String) (h : Dict Field) (s : Dict (Dict Field)) → hash_at k (insert k h s) ≡ h
hash_at-insert k h s = ap or_empty (lookup-insert_same k h s)

increment_lem :
    (k f g : String) (n : ℤ) (s t : Dict (Dict Field))
    → increment k f n s ≡ some t
    → lookup g (hash_at k t) ≡ (
        if str_eq f g
        then some (number (number_of (lookup f (hash_at k s)) +ℤ n))
        else lookup g (hash_at k s))
increment_lem k f g n s t e =
    let sum = number_of (lookup f (hash_at k s)) +ℤ n in
    let h = insert f (number sum) (hash_at k s) in
    elim (Bool-cases (is_counter (lookup f (hash_at k s)) && leb_ℤ sum (pos (2 ^ 63 - 1)))) [
      | inl a ↦
          let same : some (insert k h s) ≡ some t = rw a at e in
          ap
            (λ (o : Option (Dict (Dict Field))).
              lookup g (elim o [ none ↦ [] | some u ↦ hash_at k u ]))
            (sym same)
          ∙ ap (lookup g) (hash_at-insert k h s)
          ∙ lookup-insert f g (number sum) (hash_at k s)
      | inr a ↦ let refused : none ≡ some t = rw a at e in absurd (cc refused)
    ]

fits :
    (k f : String) (n : ℤ) (s : Dict (Dict Field))
    → is_counter (lookup f (hash_at k s)) ≡ true
    → IsSmall (number_of (lookup f (hash_at k s)) +ℤ n)
    → increment k f n s
      ≡ some
          (insert k (insert f (number (number_of (lookup f (hash_at k s)) +ℤ n)) (hash_at k s)) s)
fits k f n s given total =
    let sum = number_of (lookup f (hash_at k s)) +ℤ n in
    let small : leb_ℤ sum (pos (2 ^ 63 - 1)) ≡ true = below sum total.1 in rw (given, small) refl

hashes_laws : SessionLaws hashes
hashes_laws = record {
  get_hset = λ k f fs s.
      ap (lookup f) (hash_at-insert k (fs ++ hash_at k s) s) ∙ lookup-append f fs (hash_at k s);
  get_hincrby = increment_lem;
  hincrby_answers = λ k f n s given small total. (
    insert k (insert f (number (number_of (lookup f (hash_at k s)) +ℤ n)) (hash_at k s)) s,
    fits k f n s given total,
  );
  double_exact = λ n small. refl;
  get_expire = λ k d s h. refl;
  get_del = λ k s. ap or_empty (lookup-erase_same k s);
  get_log = λ k now quota total s. refl;
}

abbrev mac_string : List ℕ → String
mac_string m = ""

abbrev new_mac : String → Option (List ℕ)
new_mac t = none

abbrev new_user_id : String → Option String
new_user_id t = some t

abbrev session : ActiveSession
session = record {
  id = "s1";
  user_id = "u1";
  nas_ip = "api-gateway";
  mac_addr = none;
  policy = record { data_quota = 100; max_upload = 0; max_download = 0; time_quota = pos 0 };
  input_octets = 0;
  output_octets = 0;
  session_time = pos 0;
  started_at = pos 62135596800000000000;
  last_alive_at = pos 62135596800000000000;
  lease_duration = pos 900000000000;
}

abbrev delta : UsageDelta
delta = record { input_octets = 30; output_octets = 10; session_time = 5 }

abbrev now : ℤ
now = pos 62135596860000000000

abbrev running : Dict (Dict Field)
running =
    (
      "session:s1",
      ("status", text "active") ∷ ("quota", number (pos 100)) ∷ ("used_in", number (pos 20)) ∷ [],
    )
    ∷ []

running-IsExact : IsExact hashes hashes_laws mac_string new_mac new_user_id "s1" delta now running
unfolding to_unix ◌+ℤ◌ ◌-ℤ◌
running-IsExact = record {
  in_number = refl;
  out_number = refl;
  in_small = omega arith;
  out_small = omega arith;
  total_small = omega arith;
  quota_small = (omega arith, omega arith);
  expiry_small = (omega arith, omega arith);
  time_small = (omega arith, omega arith);
}

start-update_usage_example :
    let s₁ = (start_session hashes mac_string new_mac new_user_id delivered session []).1 in
    update_usage hashes mac_string new_mac new_user_id delivered delivered now "s1" delta s₁
    ≡ (err (plain "session_repository: unexpected signal -2"), s₁)
start-update_usage_example =
    start-update_usage hashes hashes_laws mac_string new_mac new_user_id session delta now delivered
      [] refl

update_usage_lem_example :
    let (answer, s') =
      update_usage hashes mac_string new_mac new_user_id delivered delivered now "s1" delta
        running in
    let count = counter hashes hashes_laws mac_string new_mac new_user_id in
    (answer ≡ ok tt
      → (count "used_in" "s1" s' ≡ count "used_in" "s1" running +ℤ pos 30)
        × (count "used_out" "s1" s' ≡ count "used_out" "s1" running +ℤ pos 10)
        × (pos 0 <ℤ count "quota" "s1" s'
            → count "used_in" "s1" s' +ℤ count "used_out" "s1" s' ≤ℤ count "quota" "s1" s'))
    × (answer ≢ ok tt
        → (count "used_in" "s1" s' ≡ count "used_in" "s1" running)
          × (count "used_out" "s1" s' ≡ count "used_out" "s1" running))
update_usage_lem_example =
    update_usage_lem hashes hashes_laws mac_string new_mac new_user_id "s1" delta now running
      running-IsExact
