-- ===== src/Web/Routes/Recording.antt =====
-- What the audit middleware of server.go records of the requests in a Redis audit repository.
use nexora_core.Prelude.{◌≡◌, refl, ap, ◌∙◌, true}
use nexora_core.Domain.Errors.{Error, err}
use nexora_core.Redis.Client.{Delivery, Action}
use nexora_core.Services.Auth.{AuditLog}
use nexora_core.Redis.Logs.{LogCodec, RedisAuditConfig, LogRedis, is_zero, log_event}
use nexora_core.Web.Http.{Context, Request, background}
use nexora_core.Web.Limiter.{LimitTrips, ServerState}
use nexora_core.Web.Guards.{Reading, traced, api_entry, tenant_or_zero, audit_middleware, text_of}
use nexora_core.Web.Routes.{Server, serve_mux, routes, serve_http}

module _ (c : LogCodec) (cfg : RedisAuditConfig) where
  log_event-zero :
      (d : Delivery) (entry : AuditLog c.Score) (w : LogRedis c)
      → is_zero c entry.tenant_id ≡ true
      → (log_event c cfg d entry w).1 ≡ w
  unfolding log_event
  log_event-zero d entry w e = rw (log_event, e) refl

  -- The audit lists beside the worlds of the other services.
  abbrev pub on_lists :
      {World A : Type 0} → Action (LogRedis c) A → Action (ServerState (World × LogRedis c)) A
  on_lists m s =
      let (other, w) = s.services in let (r, w') = m w in (r, record s { services = (other, w') })

  -- A server whose audit middleware writes into Redis.
  abbrev pub over_redis :
      {World : Type 0}
      → Delivery
      → Server (World × LogRedis c) c.Score
      → Server (World × LogRedis c) c.Score
  over_redis d v = record v { log_event = λ entry. on_lists (log_event c cfg d entry) }

  -- The audit middleware over a Redis repository records no request at all: the server's chain leaves
  -- the audit lists as the handlers leave them, for every request that comes with no identity in its
  -- context, when the empty text is no tenant and trims to itself.
  pub serve_http-records_nothing :
      {World : Type 0} (d : Delivery) (v : Server (World × LogRedis c) c.Score) (t : LimitTrips)
      (m : Reading) (r : Request) (s : ServerState (World × LogRedis c)) (e : Error)
      → r.context ≡ background
      → v.parsers.parse_tenant_id "" ≡ err e
      → is_zero c "" ≡ true
      → (serve_http (over_redis d v) t m r s).1
        ≡ (serve_mux (over_redis d v) (routes (over_redis d v) t) (traced m r) s).1
  unfolding serve_http audit_middleware api_entry traced
  serve_http-records_nothing d v t m r s e fresh refused zero =
      let (reply, s') = serve_mux (over_redis d v) (routes (over_redis d v) t) (traced m r) s in
      let (other, w) = s'.services in
      let entry : AuditLog c.Score =
        api_entry v.parsers.parse_tenant_id m (traced m r) reply.status in
      let no_tenant : entry.tenant_id ≡ "" =
        ap (λ (x : Context). tenant_or_zero (v.parsers.parse_tenant_id (text_of x.tenant_id))) fresh
        ∙ ap tenant_or_zero refused in
      ap (λ (w : LogRedis c). record s' { services = (other, w) })
        (log_event-zero d entry w (ap (is_zero c) no_tenant ∙ zero))
