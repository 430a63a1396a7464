-- ===== src/Redis/Logs/Newest.antt =====
-- What audit_repository.go answers after it has recorded an entry, and what it ignores.
use nexora_core.Prelude.{
  ℕ, ◌-◌, ◌≤◌, ◌≡◌, refl, sym, ap, subst, ◌∙◌, String, true, false, Option, none, some, List, [],
  ◌∷◌, lookup-insert_same, length, take, leb, if◌then◌else◌, arith,
}
use nexora_core.Prelude.Int.{ℤ, pos, ◌-ℤ◌, pos_part}
use nexora_core.Domain.Errors.{ok}
use nexora_core.Redis.Client.{Delivery, delivered}
use nexora_core.Services.Auth.{AuditLog}
use nexora_core.Services.Audit.{AuditFilter}
use nexora_core.Redis.Logs.{
  LogCodec, RedisAuditConfig, range_to, build_key, apply_filters, has_active_filters, limit_of,
  fetch_count, LogRedis, list_at, is_zero, push, log_event, collect, find_logs,
}
use nexora_core.Redis.Logs.Pages.{length-take}

-- The first entries of a list of which at least one is asked for.
range_to-first :
    {A : Type 0} (n : ℕ) (x : A) (xs : List A)
    → 1 ≤ n
    → (ys : List A) × (range_to (pos n -ℤ pos 1) (x ∷ xs) ≡ x ∷ ys)
unfolding range_to ◌-ℤ◌
range_to-first n x xs h = (take (n - 1) xs, ground arith)

length-range_to :
    {A : Type 0} (n : ℕ) (xs : List A) → 1 ≤ n → length (range_to (pos n -ℤ pos 1) xs) ≤ n
unfolding range_to ◌-ℤ◌
length-range_to n xs h = ground (arith, length-take n xs)

module _ (c : LogCodec) (cfg : RedisAuditConfig) where
  collect-first :
      (f : AuditFilter) (n : ℕ) (raw : c.Data) (raws : List c.Data) (l : AuditLog c.Score)
      → c.unmarshal raw ≡ some l
      → apply_filters l f ≡ true
      → (ls : List (AuditLog c.Score)) × (collect c f n (raw ∷ raws) ≡ l ∷ ls)
  unfolding collect
  collect-first f n raw raws l decoded met =
      (if leb n 1 then [] else collect c f (n - 1) raws, rw (collect, decoded, met) refl)

  -- The list of a tenant after an entry.
  list_at-log_event :
      (entry : AuditLog c.Score) (text : c.Data) (w : LogRedis c)
      → is_zero c entry.tenant_id ≡ false
      → c.marshal entry ≡ ok text
      → let key = build_key cfg entry.tenant_id in
        let (r, w') = log_event c cfg delivered entry w in
        (r ≡ ok tt)
        × (list_at c key w' ≡ range_to (cfg.max_per_tenant -ℤ pos 1) (text ∷ list_at c key w))
  unfolding log_event push
  list_at-log_event entry text w named marshalled =
      let key = build_key cfg entry.tenant_id in
      let kept = range_to (cfg.max_per_tenant -ℤ pos 1) (text ∷ list_at c key w) in
      let at =
        λ (o : Option (List c.Data)). elim o as (λ x. List c.Data) [ none ↦ [] | some xs ↦ xs ] in
      rw (log_event, named, marshalled) (refl, ap at (lookup-insert_same key kept w.lists))

  -- Recording an entry succeeds and leaves at most as many entries of its tenant as configured, when
  -- that is at least one, the entry has a tenant and can be written as JSON, and the call is answered.
  log_event-bounded :
      (m : ℕ) (entry : AuditLog c.Score) (text : c.Data) (w : LogRedis c)
      → cfg.max_per_tenant ≡ pos m
      → 1 ≤ m
      → is_zero c entry.tenant_id ≡ false
      → c.marshal entry ≡ ok text
      → let (r, w') = log_event c cfg delivered entry w in
        (r ≡ ok tt) × (length (list_at c (build_key cfg entry.tenant_id) w') ≤ m)
  log_event-bounded m entry text w max positive named marshalled =
      let key = build_key cfg entry.tenant_id in
      let (r, e) = list_at-log_event entry text w named marshalled in
      let bound =
        subst (λ (x : ℤ). length (range_to (x -ℤ pos 1) (text ∷ list_at c key w)) ≤ m) (sym max)
          (length-range_to m (text ∷ list_at c key w) positive) in
      (r, subst (λ (xs : List c.Data). length xs ≤ m) (sym e) bound)

  find_logs-list :
      (f : AuditFilter) (w : LogRedis c)
      → is_zero c f.tenant_id ≡ false
      → (find_logs c cfg delivered f w).0
        ≡ ok (
            collect c f
              (pos_part (limit_of cfg f))
              (range_to (fetch_count cfg f -ℤ pos 1) (list_at c (build_key cfg f.tenant_id) w)))
  unfolding find_logs
  find_logs-list f w named = rw (find_logs, named) refl

  -- An entry that was recorded is the first of the answers to a search of its tenant whose criteria
  -- it meets: the calls are answered, the entry is written and read back as JSON, the lists keep at
  -- least one entry and the search reads at least one.
  pub find_logs-log_event :
      (m n : ℕ) (entry : AuditLog c.Score) (text : c.Data) (f : AuditFilter) (w : LogRedis c)
      → cfg.max_per_tenant ≡ pos m
      → 1 ≤ m
      → fetch_count cfg f ≡ pos n
      → 1 ≤ n
      → is_zero c entry.tenant_id ≡ false
      → f.tenant_id ≡ entry.tenant_id
      → c.marshal entry ≡ ok text
      → c.unmarshal text ≡ some entry
      → apply_filters entry f ≡ true
      → (ls : List (AuditLog c.Score)) × ((find_logs c cfg delivered f
            (log_event c cfg delivered entry w).1).0
          ≡ ok (entry ∷ ls))
  find_logs-log_event m n entry text f w max positive fetch some_read named own marshalled decoded
        met =
      let key = build_key cfg entry.tenant_id in
      let w' = (log_event c cfg delivered entry w).1 in
      let places = pos_part (limit_of cfg f) in
      let (kept, first) = range_to-first m text (list_at c key w) positive in
      let (read, again) = range_to-first n text kept some_read in
      let (ls, page) = collect-first f places text read entry decoded met in
      let list : list_at c (build_key cfg f.tenant_id) w' ≡ text ∷ kept =
        ap (λ (t : String). list_at c (build_key cfg t) w') own
        ∙ (list_at-log_event entry text w named marshalled).1
        ∙ ap (λ (x : ℤ). range_to (x -ℤ pos 1) (text ∷ list_at c key w)) max
        ∙ first in
      let raws : range_to (fetch_count cfg f -ℤ pos 1) (list_at c (build_key cfg f.tenant_id) w')
          ≡ text ∷ read =
        ap (λ (x : ℤ). range_to (x -ℤ pos 1) (list_at c (build_key cfg f.tenant_id) w')) fetch
        ∙ ap (λ (xs : List c.Data). range_to (pos n -ℤ pos 1) xs) list
        ∙ again in
      (
        ls,
        find_logs-list f w' (ap (is_zero c) own ∙ named)
            ∙ ap (λ (xs : List c.Data). ok (collect c f places xs)) raws
            ∙ ap (λ (ls : List (AuditLog c.Score)). ok ls) page,
      )

  -- The address, the dates and the offset of a search change nothing in its answer.
  pub find_logs-ignores :
      (d : Delivery) (f : AuditFilter) (w : LogRedis c) (ip : String) (start end : Option ℤ)
      (offset : ℤ)
      → find_logs c cfg d
          (record f { ip_address = ip; start_date = start; end_date = end; offset = offset })
          w
        ≡ find_logs c cfg d f w
  unfolding find_logs limit_of fetch_count has_active_filters collect apply_filters
  find_logs-ignores d f w ip start end offset = refl
