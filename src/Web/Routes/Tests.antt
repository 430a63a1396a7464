-- ===== src/Web/Routes/Tests.antt =====
-- Requests to a small server.
use nexora_core.Prelude.{
  ◌-◌, ◌≤◌, ◌≡◌, ◌⊎◌, refl, String, is_empty, none, some, [], ◌∷◌, str_eq, if◌then◌else◌,
}
use nexora_core.Prelude.Int.{pos}
use nexora_core.Domain.Errors.{plain, ok, err}
use nexora_core.Redis.Client.{Action, delivered, lost_reply, lost_request}
use nexora_core.Services.Auth.{AuditLog, UserClaims}
use nexora_core.Redis.Logs.{LogCodec, LogRedis, default_redis_audit_config}
use nexora_core.Web.Http.{Request, background, Handler, empty_reply}
use nexora_core.Web.Limiter.{LimitRedis, LimitTrips, new_rate_limiter, ServerState, count_at}
use nexora_core.Web.Limiter.Bounds.{admitted, admitted-bounded}
use nexora_core.Web.Guards.{Reading, traced}
use nexora_core.Web.Logs.{Content}
use nexora_core.Web.Routes.{Server, serve_mux, routes, serve_http}
use nexora_core.Web.Routes.Access.{Audited, serve_http-audit}
use nexora_core.Web.Routes.Recording.{over_redis, serve_http-records_nothing}

abbrev codec : LogCodec
codec = record {
  Score = Unit {0};
  Data = AuditLog (Unit {0});
  marshal = λ l. ok l;
  unmarshal = λ l. some l;
  trim_space = λ t. t;
}

abbrev answered : LimitTrips
answered = record { pipe = delivered; ttl = lost_reply "eof"; expire = lost_request "eof" }

abbrev counted : LimitRedis
counted = record { counts = ("ratelimit:ip:1.2.3.4", 1) ∷ []; windows = [] }

admitted-bounded_example :
    admitted
      (new_rate_limiter (pos 2) (pos 60))
      "ratelimit:ip:1.2.3.4"
      ((answered, "ratelimit:ip:1.2.3.4")
        ∷ (answered, "ratelimit:ip:5.6.7.8")
        ∷ (answered, "ratelimit:ip:1.2.3.4")
        ∷ [])
      counted
    ≤ 2 - count_at "ratelimit:ip:1.2.3.4" counted
admitted-bounded_example =
    admitted-bounded (new_rate_limiter (pos 2) (pos 60)) "ratelimit:ip:1.2.3.4" 2
      ((answered, "ratelimit:ip:1.2.3.4")
        ∷ (answered, "ratelimit:ip:5.6.7.8")
        ∷ (answered, "ratelimit:ip:1.2.3.4")
        ∷ [])
      counted refl (refl, (refl, (refl, tt)))

abbrev claims : UserClaims
claims = record {
  jti = "s";
  user_id = "u";
  tenant_id = "t";
  role = "super_admin";
  username = "root";
  token_type = "access";
  registered_id = "s";
  subject = "u";
  issuer = "nexora";
  issued_at = pos 0;
  expires_at = pos 1;
  not_before = pos 0;
}

abbrev State : Type 0
State = ServerState (Unit {0} × LogRedis codec)

abbrev validate : String → Action State UserClaims
validate token s = if str_eq token "good" then (ok claims, s) else (err (plain "bad token"), s)

abbrev nowhere : Handler State (Content (Unit {0}))
nowhere r s = (empty_reply 200, s)

abbrev server : Server (Unit {0} × LogRedis codec) (Unit {0})
server = record {
  rate_limiter = new_rate_limiter (pos 2) (pos 60);
  split_host_port = λ a. none;
  show = λ n. "n";
  parsers = record {
    atoi = λ t. pos 0;
    parse_time = λ t. none;
    parse_tenant_id = λ t. if is_empty t then err (plain "invalid tenant id") else ok t;
  };
  validate_access_token = validate;
  check_integrity = λ s. (ok tt, s);
  audit_logs = λ f s. (ok [], s);
  log_event = λ l s. (ok tt, s);
  login = nowhere;
  verify_mfa = nowhere;
  refresh_token = nowhere;
  logout = nowhere;
}

abbrev start : State
start = record {
  counters = record { counts = []; windows = [] };
  services = (tt, record { lists = [] });
}

abbrev request : String → String → Request
request method path = record {
  method = method;
  path = path;
  headers = ("Authorization", "Bearer good") ∷ [];
  query = [];
  remote_addr = "1.2.3.4:5";
  context = background;
}

abbrev reading : Reading
reading = record { new_uuid = "uuid"; end = pos 1; latency_ms = pos 2 }

serve_http-audit_example :
    let r = request "GET" "/v1/audit" in
    let body = (serve_http server answered reading r start).0.body in
    (body ≡ none) ⊎ Audited server (traced reading r) body
serve_http-audit_example =
    serve_http-audit server answered reading (request "GET" "/v1/audit") start refl

serve_http-records_nothing_example :
    let v = over_redis codec default_redis_audit_config delivered server in
    let r = request "GET" "/v1/audit" in
    (serve_http v answered reading r start).1
    ≡ (serve_mux v (routes v answered) (traced reading r) start).1
serve_http-records_nothing_example =
    serve_http-records_nothing codec default_redis_audit_config delivered server answered reading
      (request "GET" "/v1/audit") start (plain "invalid tenant id") refl refl refl
