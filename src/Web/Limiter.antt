-- ===== src/Web/Limiter.antt =====
-- internal/adapters/primary/web/middlewares/rate_limit.go over the counters of a Redis server. The
-- outcomes of the round trips are an argument; `net.SplitHostPort` and the printing of a number are
-- parameters. The server answers `TTL` with the rest of a window or a negative number. Log lines
-- are left out.
pub mod Bounds
use nexora_core.Prelude.{
  ℕ, suc, ◌/◌, String, ◌<>◌, Bool, true, false, ◌||◌, is_empty, Option, none, some, List, [], ◌∷◌,
  Dict, lookup, insert, erase, if◌then◌else◌,
}
use nexora_core.Prelude.Int.{ℤ, pos, negsuc, ◌-ℤ◌, ltb_ℤ, leb_ℤ}
use nexora_core.Domain.Errors.{Result, ok, err}
use nexora_core.Redis.Client.{
  Delivery, Action, attempt, ignore, pure, ◌>>=◌, ◌>>◌, call, query, send,
}
use nexora_core.Services.Auth.{whole_seconds}
use nexora_core.Web.Http.{Request, get, Handler, with_headers, empty_reply}

pub record LimitRedis : Type 0 where
  pub counts : Dict ℕ
  pub windows : Dict ℤ

pub record LimitTrips : Type 0 where
  pub pipe : Delivery
  pub ttl : Delivery
  pub expire : Delivery

pub record RateLimiter : Type 0 where
  pub limit : ℤ
  pub window : ℤ

abbrev pub new_rate_limiter : ℤ → ℤ → RateLimiter
new_rate_limiter limit window = record { limit = limit; window = window }

unfoldable pub extract_ip : (String → Option String) → Request → String
extract_ip split_host_port r =
    if is_empty (get "X-Forwarded-For" r.headers)
    then elim (split_host_port r.remote_addr) [ none ↦ r.remote_addr | some ip ↦ ip ]
    else get "X-Forwarded-For" r.headers

abbrev pub limit_key : String → String
limit_key ip = "ratelimit:ip:" <> ip

abbrev pub count_at : String → LimitRedis → ℕ
count_at key w = elim (lookup key w.counts) [ none ↦ 0 | some n ↦ n ]

-- `INCR`, which creates the counter without a time to live
unfoldable pub incr : String → LimitRedis → ℕ × LimitRedis
incr key w =
    (suc (count_at key w), record w { counts = insert key (suc (count_at key w)) w.counts })

-- `TTL`
unfoldable pub ttl_of : String → LimitRedis → ℤ
ttl_of key w = elim (lookup key w.windows) [ none ↦ negsuc 0 | some d ↦ d ]

-- `EXPIRE`
unfoldable pub set_window : String → ℤ → LimitRedis → LimitRedis
set_window key d w = record w { windows = insert key d w.windows }

-- The window of a key is over: the server drops the counter.
unfoldable pub window_over : String → LimitRedis → LimitRedis
window_over key w = record { counts = erase key w.counts; windows = erase key w.windows }

-- What the limiter finds: Redis failed, the request is within the limit and so many are left, or it
-- is above it and the window lasts so long.
pub data Verdict : Type 0 where
  unchecked : Verdict
  within above : ℤ → Verdict

module _ (rl : RateLimiter) where
  -- The error of `Expire` is dropped.
  abbrev reset : LimitTrips → String → LimitRedis → ℤ × LimitRedis
  reset t key w = (rl.window, (send t.expire (set_window key rl.window) w).1)

  unfoldable pub renewed : LimitTrips → String → Result ℤ → LimitRedis → ℤ × LimitRedis
  renewed t key (err e) w = reset t key w
  renewed t key (ok d) w = if leb_ℤ d (pos 0) then reset t key w else (d, w)

  unfoldable pub verdict : ℕ → ℤ → Verdict
  verdict attempts ttl =
      if ltb_ℤ rl.limit (pos attempts) then above ttl else within (rl.limit -ℤ pos attempts)

  abbrev pub judged : LimitTrips → String → Result ℕ → LimitRedis → Verdict × LimitRedis
  judged t key (err e) w = (unchecked, w)
  judged t key (ok attempts) w =
      let (found, w₁) = query t.ttl (ttl_of key) w in
      let (ttl, w₂) = renewed t key found w₁ in (verdict attempts ttl, w₂)

  -- The round trips of `Limit`: the pipeline of INCR and PTTL, then TTL, and EXPIRE.
  unfoldable pub check : LimitTrips → String → LimitRedis → Verdict × LimitRedis
  check t key w = let (attempts, w') = call t.pipe (incr key) w in judged t key attempts w'

  unfoldable pub headers_of : (ℤ → String) → Verdict → Dict String
  headers_of show unchecked = []
  headers_of show (within remaining) =
      ("X-RateLimit-Limit", show rl.limit) ∷ ("X-RateLimit-Remaining", show remaining) ∷ []
  headers_of show (above ttl) =
      ("X-RateLimit-Limit", show rl.limit)
      ∷ ("X-RateLimit-Remaining", "0")
      ∷ ("Retry-After", show (whole_seconds ttl))
      ∷ []

-- What every request of the server shares: the counters, and the world of the services.
pub record ServerState (World : Type 0) : Type 0 where
  pub counters : LimitRedis
  pub services : World

module _ {World B : Type 0} (rl : RateLimiter) (show : ℤ → String) where
  abbrev pub answer_verdict :
      Verdict → Handler (ServerState World) B → Handler (ServerState World) B
  answer_verdict (above ttl) next r s =
      (with_headers (headers_of rl show (above ttl)) (empty_reply 429), s)
  answer_verdict v next r s =
      let (reply, s') = next r s in (with_headers (headers_of rl show v) reply, s')

  -- `Limit`
  unfoldable pub limit_requests :
      (String → Option String)
      → LimitTrips
      → Handler (ServerState World) B
      → Handler (ServerState World) B
  limit_requests split_host_port t next r s =
      let (v, w) = check rl t (limit_key (extract_ip split_host_port r)) s.counters in
      answer_verdict v next r (record s { counters = w })
