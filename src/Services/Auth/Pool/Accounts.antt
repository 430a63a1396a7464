-- ===== src/Services/Auth/Pool/Accounts.antt =====
-- The audit worker pool of auth_service.go loses and doubles no entry while it runs.
use mathlib.Core.List.{append_assoc, append-nil}
use nexora_core.Prelude.{
  ℕ, ◌+◌, ◌≤◌, ◌≡◌, ◌≢◌, refl, sym, ap, subst, ◌∙◌, Bool, none, some, List, [], ◌∷◌, ◌++◌, length,
  ltb, if◌then◌else◌, Bool-cases, inl, inr, arith,
}
use nexora_core.Services.Auth.Pool.{
  Pool, submit, WorkerStep, takes, writes, leaves, Step, submits, hands, works, stops, closes,
  Reach, start, later,
}

pub none-some : {A : Type 0} (x : A) → none ≢ some x
none-some x h = cc h

pub some-inj : {A : Type 0} (x y : A) → some x ≡ some y → x ≡ y
some-inj x y h = cc h

abbrev one_if : Bool → ℕ
one_if b = if b then 1 else 0

module _ {E : Type 0} where
  pub length-append : (a b : List E) → length (a ++ b) ≡ length a + length b
  length-append [] b = omega arith
  length-append (x ∷ a) b = ground (arith, length-append a b)

  -- How many entries have a property.
  abbrev pub count : (E → Bool) → List E → ℕ
  count f [] = 0
  count f (e ∷ l) = one_if (f e) + count f l

  abbrev pub count_finished : (E → Bool) → List (E × Bool) → ℕ
  count_finished f [] = 0
  count_finished f ((e, written) ∷ l) = one_if (f e) + count_finished f l

  pub count-append : (f : E → Bool) (a b : List E) → count f (a ++ b) ≡ count f a + count f b
  count-append f [] b = omega arith
  count-append f (x ∷ a) b = omega (arith, count-append f a b)

  -- The queue within its size, the workers all there, the entries in the order of their submission,
  -- and each one that was taken in a worker's hands or finished, as often as it was taken.
  pub record Accounted (size workers : ℕ) (p : Pool E) : Type 0 where
    pub room : length p.tasks ≤ size
    pub crew : p.idle + length p.busy + p.gone ≡ workers
    pub order : p.submitted ≡ p.taken ++ p.tasks
    pub held : (f : E → Bool) → count f p.taken ≡ count f p.busy + count_finished f p.finished

  submit-Accounted :
      {size workers : ℕ} {p q : Pool E} (e : E)
      → submit size e p ≡ some q
      → Accounted size workers p
      → Accounted size workers q
  unfolding submit
  submit-Accounted {size} {workers} {p} {q} e h a = elim (Bool-cases p.closed) [
    | inl shut ↦ absurd (none-some q (sym (rw (submit, shut) refl) ∙ h))
    | inr opened ↦ elim (Bool-cases (ltb (length p.tasks) size)) [
      | inl fits ↦
          let p' : Pool E = record p {
            tasks = p.tasks ++ (e ∷ []);
            submitted = p.submitted ++ (e ∷ []);
          } in
          let e' : submit size e p ≡ some p' = rw (submit, opened, fits) refl in
          subst (Accounted size workers) (some-inj p' q (sym e' ∙ h)) (record {
            room = ground (arith, length-append p.tasks (e ∷ []), fits);
            crew = a.crew;
            order =
                ap (λ (l : List E). l ++ (e ∷ [])) a.order ∙ append_assoc p.taken p.tasks (e ∷ []);
            held = a.held;
          })
      | inr full ↦
          let p' : Pool E = record p { dropped = p.dropped ++ (e ∷ []) } in
          let e' : submit size e p ≡ some p' = rw (submit, opened, full) refl in
          subst (Accounted size workers) (some-inj p' q (sym e' ∙ h))
            (record { room = a.room; crew = a.crew; order = a.order; held = a.held })
    ]
  ]

  WorkerStep-Accounted :
      {size workers : ℕ} {p q : Pool E}
      → WorkerStep p q
      → Accounted size workers p
      → Accounted size workers q
  WorkerStep-Accounted {p = p} (takes e rest first ready) a =
      let longer = ap (λ (l : List E). length l) first in
      let room = a.room in
      let crew = a.crew in
      record {
        room = ground (arith, longer);
        crew = ground arith;
        order =
            a.order
            ∙ ap (λ (l : List E). p.taken ++ l) first
            ∙ sym (append_assoc p.taken (e ∷ []) rest);
        held = λ f. omega (arith, a.held f, count-append f p.taken (e ∷ []));
      }
  WorkerStep-Accounted {p = p} (writes before rest e written at) a =
      let busy = ap (λ (l : List E). length l) at in
      let crew = a.crew in
      record {
        room = a.room;
        crew = omega (arith, busy, length-append before (e ∷ rest), length-append before rest);
        order = a.order;
        held = λ f. omega (
          arith,
          a.held f,
          ap (count f) at,
          count-append f before (e ∷ rest),
          count-append f before rest,
        );
      }
  WorkerStep-Accounted (leaves down ready) a =
      let crew = a.crew in
      record { room = a.room; crew = omega arith; order = a.order; held = a.held }

  Step-Accounted :
      {size workers : ℕ} {p q : Pool E}
      → Step size p q
      → Accounted size workers p
      → Accounted size workers q
  Step-Accounted (submits e h) a = submit-Accounted e h a
  Step-Accounted {p = p} (hands e unbuffered opened none_there ready) a =
      let crew = a.crew in
      record {
        room = omega arith;
        crew = omega arith;
        order =
            ap (λ (l : List E). l ++ (e ∷ [])) a.order
            ∙ append_assoc p.taken p.tasks (e ∷ [])
            ∙ ap (λ (l : List E). p.taken ++ (l ++ (e ∷ []))) none_there
            ∙ sym (append-nil (p.taken ++ (e ∷ [])));
        held = λ f. omega (arith, a.held f, count-append f p.taken (e ∷ []));
      }
  Step-Accounted (works w) a = WorkerStep-Accounted w a
  Step-Accounted stops a = record { room = a.room; crew = a.crew; order = a.order; held = a.held }
  Step-Accounted (closes down idle busy) a = record {
    room = a.room;
    crew = a.crew;
    order = a.order;
    held = a.held;
  }

  -- In every run of the pool, with any submissions and workers in any order: the queue stays within
  -- its size, no worker is lost, workers take the accepted entries in the order of their submission,
  -- and each entry taken is held by a worker or its write has ended, as often as it was taken.
  pub Reach-Accounted :
      {size workers : ℕ} {p : Pool E} → Reach size workers p → Accounted size workers p
  Reach-Accounted start = record {
    room = omega arith;
    crew = omega arith;
    order = refl;
    held = λ f. refl;
  }
  Reach-Accounted (later r s) = Step-Accounted s (Reach-Accounted r)
