-- ===== src/Services/Auth/Pool.antt =====
-- auditWorkerPool of internal/core/services/auth_service.go: a bounded queue of audit entries and
-- the workers that write them, as steps that interleave in any order. The workers are alike: they
-- are counted, with the entries that the busy ones hold. `tasks` is the buffered channel, so a
-- waiting worker gets an entry through it. Log lines and the timeout of a write are left out.
pub mod Accounts
pub mod Draining
mod Tests
use nexora_core.Prelude.{
  ℕ, suc, ◌-◌, ◌≡◌, ◌<◌, Bool, true, false, Option, none, some, List, [], ◌∷◌, ◌++◌, length, ltb,
  if◌then◌else◌,
}

-- `submitted`, `taken`, `dropped` and `finished` are histories: what Submit accepted, what workers
-- took from the channel, what Submit dropped, and the ends of the calls of LogEvent with their
-- outcome.
pub record Pool (E : Type 0) : Type 0 where
  pub tasks : List E
  pub busy : List E
  pub idle : ℕ
  pub gone : ℕ
  pub shutdown : Bool
  pub closed : Bool
  pub submitted : List E
  pub taken : List E
  pub dropped : List E
  pub finished : List (E × Bool)

module _ {E : Type 0} where
  -- `newAuditWorkerPool` with so many workers
  abbrev pub new_pool : ℕ → Pool E
  new_pool workers = record {
    tasks = [];
    busy = [];
    idle = workers;
    gone = 0;
    shutdown = false;
    closed = false;
    submitted = [];
    taken = [];
    dropped = [];
    finished = [];
  }

  -- `Submit` with a channel of that size: a full queue drops the entry, a closed one panics.
  unfoldable pub submit : ℕ → E → Pool E → Option (Pool E)
  submit size e p =
      if p.closed
      then none
      else if ltb (length p.tasks) size
      then some (record p { tasks = p.tasks ++ (e ∷ []); submitted = p.submitted ++ (e ∷ []) })
      else some (record p { dropped = p.dropped ++ (e ∷ []) })

  -- A worker takes the first entry.
  abbrev pub take_first : E → List E → Pool E → Pool E
  take_first e rest p = record p {
    tasks = rest;
    busy = e ∷ p.busy;
    idle = p.idle - 1;
    taken = p.taken ++ (e ∷ []);
  }

  -- The call of `LogEvent` with the entry between those two parts of the busy list returns.
  abbrev pub finish : List E → E → List E → Bool → Pool E → Pool E
  finish before e rest written p = record p {
    busy = before ++ rest;
    idle = suc p.idle;
    finished = (e, written) ∷ p.finished;
  }

  -- `worker`: it takes an entry, writes it, or sees the shutdown while it is idle. The shutdown does
  -- not go before an entry that is there: `select` picks either.
  pub data WorkerStep (p : Pool E) : Pool E → Type 0 where
    takes :
        (e : E) (rest : List E)
        → p.tasks ≡ e ∷ rest
        → 0 < p.idle
        → WorkerStep p (take_first e rest p)
    writes :
        (before rest : List E) (e : E) (written : Bool)
        → p.busy ≡ before ++ (e ∷ rest)
        → WorkerStep p (finish before e rest written p)
    leaves :
        p.shutdown ≡ true
        → 0 < p.idle
        → WorkerStep p (record p { idle = p.idle - 1; gone = suc p.gone })

  -- The steps of the pool. With a size of 0 the channel has no buffer, and `Submit` hands the entry to
  -- a worker that waits, or drops it where none is at the channel yet. `Stop` closes `shutdown`, waits for the workers and closes the channel.
  pub data Step (size : ℕ) (p : Pool E) : Pool E → Type 0 where
    submits : {q : Pool E} (e : E) → submit size e p ≡ some q → Step size p q
    hands :
        (e : E)
        → size ≡ 0
        → p.closed ≡ false
        → p.tasks ≡ []
        → 0 < p.idle
        → Step size p (take_first e [] (record p { submitted = p.submitted ++ (e ∷ []) }))
    works : {q : Pool E} → WorkerStep p q → Step size p q
    stops : Step size p (record p { shutdown = true })
    closes : p.shutdown ≡ true → p.idle ≡ 0 → p.busy ≡ [] → Step size p (record p { closed = true })

  pub data Reach (size workers : ℕ) : Pool E → Type 0 where
    start : Reach size workers (new_pool workers)
    later : {p q : Pool E} → Reach size workers p → Step size p q → Reach size workers q
