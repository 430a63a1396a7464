-- ===== src/Services/Auth/Pool/Tests.antt =====
-- A pool with one worker and numbers for entries.
use nexora_core.Prelude.{ℕ, ◌+◌, ◌≤◌, ◌≡◌, refl, ap, true, none, List, [], ◌∷◌, length, ◌==◌, arith}
use nexora_core.Services.Auth.Pool.{
  Pool, new_pool, submit, WorkerStep, takes, writes, leaves, Reach, start, later, submits, works,
  stops, closes,
}
use nexora_core.Services.Auth.Pool.Accounts.{
  length-append, Accounted, Reach-Accounted, count, count_finished,
}
use nexora_core.Services.Auth.Pool.Draining.{
  stay, then_one, left, Run-bounded, IsAtRest, at_rest-finished, closed-lost,
}

abbrev waiting : Pool ℕ
waiting = record (new_pool 1) { tasks = 7 ∷ []; submitted = 7 ∷ [] }

waiting-Reach : Reach 2 1 waiting
unfolding submit
waiting-Reach = later start (submits 7 refl)

abbrev holding : Pool ℕ
holding = record waiting { tasks = []; busy = 7 ∷ []; idle = 0; taken = 7 ∷ [] }

abbrev written : Pool ℕ
written = record holding { busy = []; idle = 1; finished = (7, true) ∷ [] }

holds : WorkerStep waiting holding
holds = takes 7 [] refl (omega arith)

ends : WorkerStep holding written
ends = writes [] [] 7 true refl

Reach-Accounted_example : Accounted 2 1 waiting
Reach-Accounted_example = Reach-Accounted waiting-Reach

Run-bounded_example : 2 + left written ≤ left waiting
Run-bounded_example = Run-bounded (then_one (then_one stay holds) ends)

written-IsAtRest : IsAtRest written
written-IsAtRest q (takes e rest first ready) =
    let none_left = ap (λ (l : List ℕ). length l) first in omega arith
written-IsAtRest q (writes before rest e w at) =
    let none_left = ap (λ (l : List ℕ). length l) at in
    omega (arith, none_left, length-append before (e ∷ rest))
written-IsAtRest q (leaves down ready) = cc down

at_rest-finished_example :
    count (λ n. n == 7) written.submitted ≡ count_finished (λ n. n == 7) written.finished
at_rest-finished_example =
    at_rest-finished (later (later waiting-Reach (works holds)) (works ends)) written-IsAtRest
      (omega arith) (λ n. n == 7)

-- The worker has left before the entry.
abbrev stopped : Pool ℕ
stopped = record waiting { shutdown = true; idle = 0; gone = 1; closed = true }

stopped-Reach : Reach 2 1 stopped
stopped-Reach =
    later (later (later waiting-Reach stops) (works (leaves refl (omega arith))))
      (closes refl refl refl)

closed-lost_example : IsAtRest stopped × ((e : ℕ) → submit 2 e stopped ≡ none)
closed-lost_example = closed-lost stopped-Reach refl
