-- ===== src/Web/Guards.antt =====
-- internal/adapters/primary/web/middlewares: RequireAuth (auth.go), RequireRole (rbac.go) and
-- AuditMiddleware (audit_midlleware.go). The validation of a token, the audit repository,
-- `ParseTenantID` and new UUIDs are parameters. The entry of the audit middleware is written by a
-- goroutine of its own; here that is the last step of the request.
pub mod Access
use Prim.Native.Char.{code}
use nexora_core.Prelude.{
  ◌==◌, ℕ, ◌<>◌, String, Bool, true, false, not, ◌||◌, ◌&&◌, is_empty, Option, none, some, List, [],
  ◌∷◌, Dict, contains, ltb, leb, if◌then◌else◌,
}
use nexora_core.Prelude.Int.{ℤ, pos}
use nexora_core.Domain.Errors.{Result, ok, err}
use nexora_core.Redis.Client.{Action}
use nexora_core.Services.Auth.{UserClaims, AuditLog, words, number}
use nexora_core.Web.Http.{Context, Request, get, Reply, Handler, json_error}

-- `strings.HasPrefix` with `strings.TrimPrefix`
unfoldable pub after_prefix : String → String → Option String
after_prefix String.[] text = some text
after_prefix (String.◌∷◌ c p) String.[] = none
after_prefix (String.◌∷◌ c p) (String.◌∷◌ d text) =
    let rest = after_prefix p text in if code c == code d then rest else none

-- The claims and the identity that `RequireAuth` puts into the context.
abbrev pub with_identity : UserClaims → Request → Request
with_identity claims r = record r {
  context = record r.context {
    auth_claims = some claims;
    tenant_id = some claims.tenant_id;
    actor_id = some claims.user_id;
  };
}

abbrev pub role_super_admin : String
role_super_admin = "super_admin"

abbrev pub role_provider_admin : String
role_provider_admin = "provider_admin"

module _ {S B : Type 0} where
  module _ (validate_access_token : String → Action S UserClaims) where
    abbrev pub authenticated : Handler S B → Request → Result UserClaims × S → Reply B × S
    authenticated next r (err e, s) = json_error 401 s
    authenticated next r (ok claims, s) = next (with_identity claims r) s

    abbrev pub with_bearer : Handler S B → Request → S → Option String → Reply B × S
    with_bearer next r s none = json_error 401 s
    with_bearer next r s (some token) = authenticated next r (validate_access_token token s)

    unfoldable pub require_auth : Handler S B → Handler S B
    require_auth next r s =
        let header = get "Authorization" r.headers in
        if is_empty header
        then json_error 401 s
        else with_bearer next r s (after_prefix "Bearer " header)

  abbrev pub authorized : List String → Handler S B → Request → S → Option UserClaims → Reply B × S
  authorized allowed next r s none = json_error 403 s
  authorized allowed next r s (some claims) =
      if contains allowed claims.role then next r s else json_error 403 s

  unfoldable pub require_role : List String → Handler S B → Handler S B
  require_role allowed next r s = authorized allowed next r s r.context.auth_claims

-- `!= ""` of a value of the context.
abbrev pub text_of : Option String → String
text_of none = ""
text_of (some v) = v

unfoldable pub audit_status : ℕ → String
audit_status status =
    if leb 400 status && ltb status 500
    then "WARNING"
    else if leb 500 status
    then "FAILURE"
    else "SUCCESS"

-- A new UUID, the time at the end and the milliseconds that have passed.
pub record Reading : Type 0 where
  pub new_uuid : String
  pub end : ℤ
  pub latency_ms : ℤ

unfoldable pub traced : Reading → Request → Request
traced m r =
    let given = get "X-Trace-Id" r.headers in
    record r {
      context = record r.context { trace_id = some (if is_empty given then m.new_uuid else given) };
    }

abbrev pub tenant_or_zero : Result String → String
tenant_or_zero (ok t) = t
tenant_or_zero (err e) = ""

-- The entry reads the request that the middleware passed on, not those that later ones made.
unfoldable pub api_entry :
    {Score : Type 0} → (String → Result String) → Reading → Request → ℕ → AuditLog Score
api_entry parse_tenant_id m r status =
    let actor = text_of r.context.actor_id in
    record {
      trace_id = text_of r.context.trace_id;
      tenant_id = tenant_or_zero (parse_tenant_id (text_of r.context.tenant_id));
      actor_id = if is_empty actor then "anonymous" else actor;
      actor_type = "user";
      action = "API_ACCESS";
      status = audit_status status;
      ip_address = r.remote_addr;
      user_agent = get "User-Agent" r.headers;
      device_id = "";
      metadata =
          ("method", words r.method)
          ∷ ("path", words r.path)
          ∷ ("status_code", number (pos status))
          ∷ ("latency_ms", number m.latency_ms)
          ∷ [];
      created_at = m.end;
    }

module _ {S B Score : Type 0} (parse_tenant_id : String → Result String)
    (log_event : AuditLog Score → Action S (Unit {0})) where
  unfoldable pub audit_middleware : Reading → Handler S B → Handler S B
  audit_middleware m next r s =
      let (reply, s') = next (traced m r) s in
      (reply, (log_event (api_entry parse_tenant_id m (traced m r) reply.status) s').1)
