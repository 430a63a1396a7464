-- ===== src/Redis/Logs/Pages.antt =====
-- What audit_repository.go keeps and what it answers.
use text.Mathlib.TextLemmas.{append_cancel_left, append_cancel_right}
use nexora_core.Prelude.{
  ℕ, ◌-◌, ◌≤◌, ◌≡◌, ◌≢◌, ◌⊎◌, refl, sym, ap, subst, ◌∙◌, String, ◌<>◌, Bool, true, false, ◌||◌,
  Option, none, some, List, [], ◌∷◌, lookup, insert, lookup-insert, length, take, str_eq, leb,
  eq_iff, if◌then◌else◌, Bool-cases, Option-cases, inl, inr, arith,
}
use nexora_core.Prelude.Int.{ℤ, pos, negsuc, pos_part, ◌-ℤ◌, ltb_ℤ, leb_ℤ}
use nexora_core.Domain.Errors.{Error, plain, wrap, Result, ok, err}
use nexora_core.Redis.Client.{Delivery, delivered, lost_request, lost_reply, send}
use nexora_core.Services.Auth.{AuditLog}
use nexora_core.Services.Auth.Steps.{ok-ne}
use nexora_core.Services.Audit.{AuditFilter}
use nexora_core.Redis.Keys.Register.{Result-cases}
use nexora_core.Redis.Logs.{
  LogCodec, RedisAuditConfig, range_to, build_key, apply_filters, limit_of, fetch_count, LogRedis,
  list_at, is_zero, push, log_event, collect, find_logs,
}

pub length-take : {A : Type 0} (n : ℕ) (xs : List A) → length (take n xs) ≤ n
length-take n [] = omega arith
length-take n (x ∷ xs) = ground (arith, length-take (n - 1) xs)

build_key-ne : (cfg : RedisAuditConfig) (t u : String) → t ≢ u → build_key cfg t ≢ build_key cfg u
unfolding build_key
build_key-ne cfg t u ne e = ne (
    append_cancel_right t u "}" (
      append_cancel_left ":{" (t <> "}") (u <> "}")
        (append_cancel_left cfg.key_prefix (":{" <> (t <> "}")) (":{" <> (u <> "}")) e)))

limit_of-positive : (cfg : RedisAuditConfig) (f : AuditFilter) → 1 ≤ pos_part (limit_of cfg f)
unfolding limit_of
limit_of-positive cfg f = elim (Bool-cases (leb_ℤ f.limit (pos 0) || ltb_ℤ cfg.max_limit f.limit)) [
  | inl e ↦ rw (limit_of, e) (omega arith)
  | inr e ↦ rw (limit_of, e) (positive f.limit cfg.max_limit e)
]
  where
    positive : (l m : ℤ) → (leb_ℤ l (pos 0) || ltb_ℤ m l) ≡ false → 1 ≤ pos_part l
    positive (pos n) m e = ground arith
    positive (negsuc n) m e = ground arith

module _ (c : LogCodec) (cfg : RedisAuditConfig) where
  list_at-push :
      (key other : String) (text : c.Data) (w : LogRedis c)
      → key ≢ other
      → list_at c other (push c cfg key text w) ≡ list_at c other w
  unfolding push
  list_at-push key other text w ne =
      let kept = range_to (cfg.max_per_tenant -ℤ pos 1) (text ∷ list_at c key w) in
      let differ : str_eq key other ≡ false = ground (arith, eq_iff key other, ne) in
      let found : lookup other (insert key kept w.lists) ≡ lookup other w.lists =
        lookup-insert key other kept w.lists
        ∙ ap (λ (b : Bool). if b then some kept else lookup other w.lists) differ in
      ap (λ (o : Option (List c.Data)). elim o as (λ x. List c.Data) [ none ↦ [] | some xs ↦ xs ])
        found

  send-list_at :
      (d : Delivery) (key other : String) (text : c.Data) (w : LogRedis c)
      → key ≢ other
      → list_at c other (send d (push c cfg key text) w).1 ≡ list_at c other w
  send-list_at delivered key other text w ne = list_at-push key other text w ne
  send-list_at (lost_request m) key other text w ne = refl
  send-list_at (lost_reply m) key other text w ne = list_at-push key other text w ne

  log_event-list_at :
      (d : Delivery) (entry : AuditLog c.Score) (other : String) (w : LogRedis c)
      → entry.tenant_id ≢ other
      → list_at c (build_key cfg other) (log_event c cfg d entry w).1
        ≡ list_at c (build_key cfg other) w
  unfolding log_event
  log_event-list_at d entry other w ne = elim (Bool-cases (is_zero c entry.tenant_id)) [
    | inl e ↦ rw (log_event, e) refl
    | inr e ↦ elim (Result-cases (c.marshal entry)) [
      | inl (text, m) ↦
          rw (log_event, e, m)
            (send-list_at d (build_key cfg entry.tenant_id) (build_key cfg other) text w
              (build_key-ne cfg entry.tenant_id other ne))
      | inr (x, m) ↦ rw (log_event, e, m) refl
    ]
  ]

  find_logs-lists :
      (d : Delivery) (f : AuditFilter) (w w' : LogRedis c)
      → list_at c (build_key cfg f.tenant_id) w ≡ list_at c (build_key cfg f.tenant_id) w'
      → (find_logs c cfg d f w).0 ≡ (find_logs c cfg d f w').0
  unfolding find_logs
  find_logs-lists delivered f w w' same = elim (Bool-cases (is_zero c f.tenant_id)) [
    | inl e ↦ rw (find_logs, e) refl
    | inr e ↦ rw (find_logs, e, same) refl
  ]
  find_logs-lists (lost_request m) f w w' same = elim (Bool-cases (is_zero c f.tenant_id)) [
    | inl e ↦ rw (find_logs, e) refl
    | inr e ↦ rw (find_logs, e) refl
  ]
  find_logs-lists (lost_reply m) f w w' same = elim (Bool-cases (is_zero c f.tenant_id)) [
    | inl e ↦ rw (find_logs, e) refl
    | inr e ↦ rw (find_logs, e) refl
  ]

  -- The audit entries of one tenant never show in the answers to another: whatever becomes of the
  -- call that records an entry of another tenant, a search answers what it answered before.
  pub find_logs-log_event_other :
      (d d' : Delivery) (entry : AuditLog c.Score) (f : AuditFilter) (w : LogRedis c)
      → entry.tenant_id ≢ f.tenant_id
      → (find_logs c cfg d' f (log_event c cfg d entry w).1).0 ≡ (find_logs c cfg d' f w).0
  find_logs-log_event_other d d' entry f w ne =
      find_logs-lists d' f (log_event c cfg d entry w).1 w
        (log_event-list_at d entry f.tenant_id w ne)

  -- Every entry meets the criteria.
  unfoldable pub AllMeet : AuditFilter → List (AuditLog c.Score) → Type 0
  AllMeet f [] = Unit
  AllMeet f (l ∷ ls) = (apply_filters l f ≡ true) × AllMeet f ls

  collect-bounded :
      (f : AuditFilter) (n : ℕ) (raws : List c.Data)
      → 1 ≤ n
      → (length (collect c f n raws) ≤ n) × AllMeet f (collect c f n raws)
  unfolding collect AllMeet
  collect-bounded f n [] some_left = (omega arith, tt)
  collect-bounded f n (raw ∷ raws) some_left = elim (Option-cases (c.unmarshal raw)) [
    | inl e ↦ rw (collect, e) (collect-bounded f n raws some_left)
    | inr (l, e) ↦ elim (Bool-cases (apply_filters l f)) [
      | inr fails ↦ rw (collect, e, fails) (collect-bounded f n raws some_left)
      | inl met ↦ elim (Bool-cases (leb n 1)) [
        | inl last ↦ rw (collect, e, met, last) (ground arith, (met, tt))
        | inr more ↦
            let (few, all) = collect-bounded f (n - 1) raws (ground arith) in
            rw (collect, e, met, more) (ground (arith, few), (met, all))
      ]
    ]
  ]

  find_logs-asked :
      (d : Delivery) (f : AuditFilter) (w : LogRedis c)
      → is_zero c f.tenant_id ≡ false
      → ((x : Error) × ((find_logs c cfg d f w).0 ≡ err x))
        ⊎ ((raws : List c.Data) × ((find_logs c cfg d f w).0
              ≡ ok (collect c f (pos_part (limit_of cfg f)) raws)))
  unfolding find_logs
  find_logs-asked delivered f w e = inr (
    range_to (fetch_count cfg f -ℤ pos 1) (list_at c (build_key cfg f.tenant_id) w),
    rw (find_logs, e) refl,
  )
  find_logs-asked (lost_request m) f w e =
      inl (wrap "redis_audit: lrange failed: " (plain m) "", rw (find_logs, e) refl)
  find_logs-asked (lost_reply m) f w e =
      inl (wrap "redis_audit: lrange failed: " (plain m) "", rw (find_logs, e) refl)

  find_logs-cases :
      (d : Delivery) (f : AuditFilter) (w : LogRedis c)
      → ((x : Error) × ((find_logs c cfg d f w).0 ≡ err x))
        ⊎ ((raws : List c.Data) × ((find_logs c cfg d f w).0
              ≡ ok (collect c f (pos_part (limit_of cfg f)) raws)))
  unfolding find_logs
  find_logs-cases d f w = elim (Bool-cases (is_zero c f.tenant_id)) [
    | inl e ↦ inl (plain "redis_audit: tenant_id requis", rw (find_logs, e) refl)
    | inr e ↦ find_logs-asked d f w e
  ]

  -- A page that a search answers has at most as many entries as the limit that applies (the one
  -- asked for, or 50 when that is not positive or above the maximum), and each meets the criteria.
  find_logs-bounded :
      (d : Delivery) (f : AuditFilter) (w : LogRedis c) (logs : List (AuditLog c.Score))
      → (find_logs c cfg d f w).0 ≡ ok logs
      → (length logs ≤ pos_part (limit_of cfg f)) × AllMeet f logs
  find_logs-bounded d f w logs h = elim (find_logs-cases d f w) [
    | inl (x, e) ↦ absurd (ok-ne x logs (sym e ∙ h))
    | inr (raws, e) ↦
        let same : collect c f (pos_part (limit_of cfg f)) raws ≡ logs =
          ap (λ (r : Result (List (AuditLog c.Score))). elim r [ ok a ↦ a | err x ↦ [] ])
            (sym e ∙ h) in
        subst
          (λ (ls : List (AuditLog c.Score)). (length ls ≤ pos_part (limit_of cfg f)) × AllMeet f ls)
          same (collect-bounded f (pos_part (limit_of cfg f)) raws (limit_of-positive cfg f))
  ]
