-- ===== src/Redis/Keys/Exclusion.antt =====
-- The distributed lock of jwks_store.go excludes: at most one instance holds it while its time is
-- not over, and an instance that is late never takes the lock of another.
use nexora_core.Prelude.{
  ℕ, ◌≡◌, ◌≢◌, sym, ap, ◌∙◌, String, Bool, false, Option, some, ◌==◌, inl, inr, arith, Bool-cases,
}
use nexora_core.Redis.Client.{Delivery}
use nexora_core.Redis.Keys.{Cipher, KeyRedis, try_acquire_lock, release_lock}
use nexora_core.Redis.Keys.Lock.{
  update, held, none-some, lock_of, System, Step, Reach, acquire, release, time_over, start, later,
  acquired, try_acquire_lock-kept, release_lock-other,
}

update-same : (f : ℕ → Option String) (i : ℕ) (v : Option String) → update f i v i ≡ v
update-same f i v = ground arith

module _ (c : Cipher) (name : String) where
  -- No two instances have one token.
  abbrev Distinct : System c name → Type 0
  Distinct s = (i j : ℕ) (t : String) → s.holder i ≡ some t → s.holder j ≡ some t → i ≡ j

  Step-Distinct :
      {timed : Bool} {s s' : System c name} → Step c name timed s s' → Distinct s → Distinct s'
  Step-Distinct {s = s} (acquire k token d fresh idle) inv i j t p q =
      let h = held (try_acquire_lock c name token d s.world).0 in
      let own : h ≡ some t → t ≡ token = λ e. (acquired c name token t d s.world e).0 in
      let old : (a : ℕ) → s.holder a ≡ some t → h ≢ some t =
        λ a e e'. fresh a (e ∙ ap some (own e')) in
      ground (arith, old i, old j, inv i j t)
  Step-Distinct (release k token d mine) inv i j t p q = ground (arith, inv i j t)
  Step-Distinct (time_over e) inv i j t p q = inv i j t p q

  Reach-Distinct :
      {timed : Bool} {w : KeyRedis c} {s : System c name} → Reach c name timed w s → Distinct s
  Reach-Distinct start i j t p q = absurd (none-some t p)
  Reach-Distinct (later r step) i j t p q = Step-Distinct step (Reach-Distinct r) i j t p q

  -- In every run, also when locks run out of time and calls or answers are lost: the release of an
  -- instance that is not the one whose token is at the server leaves that lock there.
  pub release_lock-Reach :
      {timed : Bool} {w : KeyRedis c} {s : System c name}
      → Reach c name timed w s
      → (i j : ℕ) (t u : String) (d : Delivery) → i ≢ j
      → s.holder i ≡ some t
      → s.holder j ≡ some u
      → lock_of c name s.world ≡ some u
      → lock_of c name (release_lock c name t d s.world).1 ≡ some u
  release_lock-Reach {s = s} r i j t u d ne mine other live =
      release_lock-other c name t u d s.world
        (λ same. ne (Reach-Distinct r i j t mine (other ∙ ap some same))) live

  -- Every token that is held is the one at the server.
  abbrev IsInTime : System c name → Type 0
  IsInTime s = (i : ℕ) (t : String) → s.holder i ≡ some t → lock_of c name s.world ≡ some t

  Step-IsInTime :
      {s s' : System c name} → Step c name false s s' → Distinct s → IsInTime s → IsInTime s'
  Step-IsInTime {s = s} (acquire k token d fresh idle) inv live i t p = elim (Bool-cases (k == i)) [
    | inl e ↦ (acquired c name token t d s.world (ground (arith, e, p))).2
    | inr e ↦ try_acquire_lock-kept c name token t d s.world (live i t (ground (arith, e, p)))
  ]
  Step-IsInTime {s = s} (release k token d mine) inv live i t p = elim (Bool-cases (k == i)) [
    | inl e ↦ absurd (none-some t (ground (arith, e, p)))
    | inr e ↦
        let his : s.holder i ≡ some t = ground (arith, e, p) in
        release_lock-other c name token t d s.world
          (λ same. ground (arith, e, inv k i t (mine ∙ sym (ap some same)) his)) (live i t his)
  ]
  Step-IsInTime (time_over e) inv live i t p = absurd (cc e)

  Reach-IsInTime : {w : KeyRedis c} {s : System c name} → Reach c name false w s → IsInTime s
  Reach-IsInTime start i t p = absurd (none-some t p)
  Reach-IsInTime (later r step) i t p =
      Step-IsInTime step (Reach-Distinct r) (Reach-IsInTime r) i t p

  -- While no lock runs out of time, the lock excludes: in every run, with lost calls and answers,
  -- two instances that hold it are the same one.
  pub Reach-exclusive :
      {w : KeyRedis c} {s : System c name}
      → Reach c name false w s
      → (i j : ℕ) (t u : String) → s.holder i ≡ some t
      → s.holder j ≡ some u
      → i ≡ j
  Reach-exclusive r i j t u p q =
      Reach-Distinct r i j u (p ∙ sym (Reach-IsInTime r i t p) ∙ Reach-IsInTime r j u q) q
