-- ===== src/Services/Auth/Pool/Draining.antt =====
-- The audit worker pool of auth_service.go comes to rest, with everything written while a worker is
-- there, and with what is left lost after Stop.
use nexora_core.Prelude.{
  ℕ, suc, ◌+◌, ◌*◌, ◌≤◌, ◌<◌, ◌≡◌, ◌≢◌, refl, sym, ap, ◌∙◌, Bool, true, false, none, some, List, [],
  ◌∷◌, ◌++◌, length, ltb, Bool-cases, inl, inr, arith,
}
use nexora_core.Services.Auth.Pool.{
  Pool, submit, take_first, finish, WorkerStep, takes, writes, leaves, Step, submits, hands, works,
  stops, closes, Reach, start, later,
}
use nexora_core.Services.Auth.Pool.Accounts.{
  none-some, some-inj, length-append, count, count_finished, count-append, Reach-Accounted,
}

false-true : false ≢ true
false-true h = cc h

module _ {E : Type 0} where
  -- So many steps of workers, with no submission between them.
  pub data Run (p : Pool E) : ℕ → Pool E → Type 0 where
    stay : Run p 0 p
    then_one : {k : ℕ} {q r : Pool E} → Run p k q → WorkerStep q r → Run p (suc k) r

  abbrev pub left : Pool E → ℕ
  left p = 3 * length p.tasks + 2 * length p.busy + p.idle

  WorkerStep-left : {p q : Pool E} → WorkerStep p q → left q < left p
  WorkerStep-left {p = p} (takes e rest first ready) =
      omega (arith, ap (λ (l : List E). length l) first)
  WorkerStep-left {p = p} (writes before rest e written at) = omega (
    arith,
    ap (λ (l : List E). length l) at,
    length-append before (e ∷ rest),
    length-append before rest,
  )
  WorkerStep-left (leaves down ready) = omega arith

  -- The workers come to rest: without submissions they make at most three steps for each entry that
  -- waits, two for each that a worker holds and one for each idle worker.
  pub Run-bounded : {p q : Pool E} {k : ℕ} → Run p k q → k + left q ≤ left p
  Run-bounded stay = omega arith
  Run-bounded (then_one r s) = omega (arith, Run-bounded r, WorkerStep-left s)

  abbrev pub IsAtRest : Pool E → Type 0
  IsAtRest p = (q : Pool E) → ¬ WorkerStep p q

  rest-empty :
      (p : Pool E) → IsAtRest p → 0 < p.idle + length p.busy → (p.tasks ≡ []) × (p.busy ≡ [])
  rest-empty p stuck there = go p.tasks p.busy refl refl
    where
      go : (tasks busy : List E) → p.tasks ≡ tasks → p.busy ≡ busy → (p.tasks ≡ []) × (p.busy ≡ [])
      go tasks (e ∷ rest) t b = absurd (stuck (finish [] e rest true p) (writes [] rest e true b))
      go [] [] t b = (t, b)
      go (e ∷ rest) [] t b = absurd (
          stuck (take_first e rest p)
            (takes e rest t (let none_busy = ap (λ (l : List E). length l) b in omega arith)))

  -- At rest nothing is owed: in every run of the pool that has come to a state in which no worker can
  -- make a step while one has not left, the write of every accepted entry has ended, as often as the
  -- entry was accepted.
  pub at_rest-finished :
      {size workers : ℕ} {p : Pool E}
      → Reach size workers p
      → IsAtRest p
      → 0 < p.idle + length p.busy
      → (f : E → Bool) → count f p.submitted ≡ count_finished f p.finished
  at_rest-finished {p = p} r stuck there f =
      let a = Reach-Accounted r in
      let (t, b) = rest-empty p stuck there in
      omega (
        arith,
        ap (count f) a.order,
        count-append f p.taken p.tasks,
        ap (count f) t,
        ap (count f) b,
        a.held f,
      )

  abbrev IsDone : Pool E → Type 0
  IsDone p = p.closed ≡ true → (p.idle ≡ 0) × (p.busy ≡ [])

  done-rest : (p : Pool E) → p.idle ≡ 0 → p.busy ≡ [] → IsAtRest p
  done-rest p i b q (takes e rest first ready) = omega arith
  done-rest p i b q (writes before rest e written at) =
      let size = ap (λ (l : List E). length l) (sym b ∙ at) in
      omega (arith, size, length-append before (e ∷ rest))
  done-rest p i b q (leaves down ready) = omega arith

  submit-opened : (size : ℕ) (p q : Pool E) (e : E) → submit size e p ≡ some q → p.closed ≡ false
  unfolding submit
  submit-opened size p q e h = elim (Bool-cases p.closed) [
    | inl shut ↦ absurd (none-some q (sym (rw (submit, shut) refl) ∙ h))
    | inr opened ↦ opened
  ]

  submit-closed : (size : ℕ) (p q : Pool E) (e : E) → submit size e p ≡ some q → q.closed ≡ false
  unfolding submit
  submit-closed size p q e h =
      let opened = submit-opened size p q e h in
      elim (Bool-cases (ltb (length p.tasks) size)) [
        | inl fits ↦
            let p' : Pool E = record p {
              tasks = p.tasks ++ (e ∷ []);
              submitted = p.submitted ++ (e ∷ []);
            } in
            let same : submit size e p ≡ some p' = rw (submit, opened, fits) refl in
            ap (λ (x : Pool E). x.closed) (sym (some-inj p' q (sym same ∙ h))) ∙ opened
        | inr full ↦
            let p' : Pool E = record p { dropped = p.dropped ++ (e ∷ []) } in
            let same : submit size e p ≡ some p' = rw (submit, opened, full) refl in
            ap (λ (x : Pool E). x.closed) (sym (some-inj p' q (sym same ∙ h))) ∙ opened
      ]

  WorkerStep-closed : {p q : Pool E} → WorkerStep p q → q.closed ≡ p.closed
  WorkerStep-closed (takes e rest first ready) = refl
  WorkerStep-closed (writes before rest e written at) = refl
  WorkerStep-closed (leaves down ready) = refl

  Step-IsDone : {size : ℕ} {p q : Pool E} → Step size p q → IsDone p → IsDone q
  Step-IsDone {size} {p} {q} (submits e h) d shut =
      absurd (false-true (sym (submit-closed size p q e h) ∙ shut))
  Step-IsDone (hands e unbuffered opened none_there ready) d shut =
      absurd (false-true (sym opened ∙ shut))
  Step-IsDone {p = p} {q = q} (works w) d shut =
      let (i, b) = d (sym (WorkerStep-closed w) ∙ shut) in absurd (done-rest p i b q w)
  Step-IsDone {p = p} {q = q} stops d shut = d shut
  Step-IsDone {p = p} {q = q} (closes down idle busy) d shut = (idle, busy)

  Reach-IsDone : {size workers : ℕ} {p : Pool E} → Reach size workers p → IsDone p
  Reach-IsDone start shut = absurd (false-true shut)
  Reach-IsDone (later r s) shut = Step-IsDone s (Reach-IsDone r) shut

  -- After Stop has closed the channel, no worker takes what is still in the queue, and a further
  -- submission panics.
  pub closed-lost :
      {size workers : ℕ} {p : Pool E}
      → Reach size workers p
      → p.closed ≡ true
      → IsAtRest p × ((e : E) → submit size e p ≡ none)
  unfolding submit
  closed-lost {p = p} r shut =
      let (i, b) = Reach-IsDone r shut in (done-rest p i b, λ e. rw (submit, shut) refl)
