-- ===== src/Web/Routes.antt =====
-- internal/adapters/primary/web/server.go: `Server`, its routes and ServeHTTP, and the routes of
-- cmd/api/main.go. The handlers of the authentication routes are fields, as the code registers
-- them; the standard mux is the choice of the handler by the path (and the method in main.go).
pub mod Access
pub mod Recording
mod Tests
use nexora_core.Prelude.{
  ℕ, String, Bool, true, false, ◌||◌, ◌&&◌, Option, none, some, List, [], ◌∷◌, Dict, lookup, str_eq,
  if◌then◌else◌,
}
use nexora_core.Prelude.Int.{ℤ}
use nexora_core.Domain.Errors.{Result, ok, err}
use nexora_core.Redis.Client.{Action}
use nexora_core.Services.Auth.{AuditLog, UserClaims}
use nexora_core.Services.Audit.{AuditFilter}
use nexora_core.Web.Http.{
  Request, Reply, Handler, with_headers, empty_reply, json_header, json_error, only_get, only_post,
}
use nexora_core.Web.Limiter.{LimitTrips, RateLimiter, ServerState, limit_requests}
use nexora_core.Web.Guards.{
  Reading, require_auth, require_role, audit_middleware, role_super_admin, role_provider_admin,
}
use nexora_core.Web.Logs.{Content, identity, Parsers, get_logs_handler}

abbrev pub admins : List String
admins = role_super_admin ∷ role_provider_admin ∷ []

-- The services that the routes call, over the state that every request shares.
pub record Server (World Score : Type 0) : Type 0 where
  pub rate_limiter : RateLimiter
  pub split_host_port : String → Option String
  pub show : ℤ → String
  pub parsers : Parsers
  pub validate_access_token : String → Action (ServerState World) UserClaims
  pub check_integrity : Action (ServerState World) (Unit {0})
  pub audit_logs : AuditFilter → Action (ServerState World) (List (AuditLog Score))
  pub log_event : AuditLog Score → Action (ServerState World) (Unit {0})
  pub login : Handler (ServerState World) (Content Score)
  pub verify_mfa : Handler (ServerState World) (Content Score)
  pub refresh_token : Handler (ServerState World) (Content Score)
  pub logout : Handler (ServerState World) (Content Score)

module _ {World Score : Type 0} (v : Server World Score) where
  abbrev pub Route : Type 0
  Route = Handler (ServerState World) (Content Score)

  abbrev pub not_found : Route
  not_found r s = (empty_reply 404, s)

  -- The standard mux: the handler of the path.
  abbrev pub serve_mux : Dict Route → Route
  serve_mux table r s =
      (elim (lookup r.path table) as (λ x. Route) [ none ↦ not_found | some h ↦ h ]) r s

  abbrev pub handle_health : Route
  handle_health r s = (with_headers json_header (empty_reply 200), s)

  abbrev pub ready_answer :
      Result (Unit {0}) × ServerState World → Reply (Content Score) × ServerState World
  ready_answer (err e, s) = json_error 503 s
  ready_answer (ok u, s) = (with_headers json_header (empty_reply 200), s)

  unfoldable pub handle_ready : Route
  handle_ready r s = ready_answer (v.check_integrity s)

  abbrev pub limited : LimitTrips → Route → Route
  limited t = limit_requests v.rate_limiter v.show v.split_host_port t

  abbrev pub admin_only : Route → Route
  admin_only next = require_auth v.validate_access_token (require_role admins next)

  abbrev pub audit_chain : LimitTrips → Route
  audit_chain t = limited t (admin_only (only_get (get_logs_handler v.parsers v.audit_logs)))

  unfoldable pub routes : LimitTrips → Dict Route
  routes t =
      ("/v1/auth/login", limited t (only_post v.login))
      ∷ ("/v1/auth/verify-mfa", limited t (only_post v.verify_mfa))
      ∷ ("/v1/auth/refresh", limited t (only_post v.refresh_token))
      ∷ ("/v1/auth/logout", require_auth v.validate_access_token (only_post v.logout))
      ∷ ("/v1/audit", audit_chain t)
      ∷ ("/health", only_get handle_health)
      ∷ ("/ready", only_get handle_ready)
      ∷ []

  abbrev security_headers : Dict String
  security_headers =
      ("X-Content-Type-Options", "nosniff")
      ∷ ("X-Frame-Options", "DENY")
      ∷ ("X-XSS-Protection", "1; mode=block")
      ∷ ("Referrer-Policy", "strict-origin-when-cross-origin")
      ∷ ("Content-Security-Policy", "default-src 'none'; frame-ancestors 'none';")
      ∷ []

  -- `ServeHTTP`: the audit middleware is the outermost one.
  unfoldable pub serve_http : LimitTrips → Reading → Route
  serve_http t m r s =
      let chain = audit_middleware v.parsers.parse_tenant_id v.log_event m (serve_mux (routes t)) in
      let (reply, s') = chain r s in (with_headers security_headers reply, s')

  -- The handler of `GET /v1/me` in main.go.
  abbrev pub me : Route
  me r s = elim r.context.auth_claims [
    | none ↦ (with_headers json_header (empty_reply 500), s)
    | some claims ↦
        (with_headers json_header (record (empty_reply 200) { body = some (identity claims) }), s)
  ]

  -- The readiness of main.go has no body.
  abbrev ready_status :
      Result (Unit {0}) × ServerState World → Reply (Content Score) × ServerState World
  ready_status (err e, s) = (empty_reply 503, s)
  ready_status (ok u, s) = (empty_reply 200, s)

  -- A pattern of main.go with its method; one with GET also takes HEAD.
  abbrev pub on_method : String → Route → Route
  on_method method next r s =
      if str_eq r.method method || (str_eq method "GET" && str_eq r.method "HEAD")
      then next r s
      else (empty_reply 405, s)

  -- The answer of the route that only tests the roles.
  abbrev pub users : Route
  users r s = (with_headers json_header (empty_reply 200), s)

  unfoldable pub main_routes : Dict Route
  main_routes =
      ("/v1/auth/login", on_method "POST" v.login)
      ∷ ("/v1/auth/verify-mfa", on_method "POST" v.verify_mfa)
      ∷ ("/v1/auth/refresh-token", on_method "POST" v.refresh_token)
      ∷ ("/v1/auth/logout", on_method "POST" v.logout)
      ∷ ("/health", on_method "GET" (λ r s. (with_headers json_header (empty_reply 200), s)))
      ∷ ("/ready", on_method "GET" (λ r s. ready_status (v.check_integrity s)))
      ∷ ("/v1/me", on_method "GET" (require_auth v.validate_access_token me))
      ∷ ("/v1/users", on_method "POST" (admin_only users))
      ∷ []
