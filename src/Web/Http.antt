-- ===== src/Web/Http.antt =====
-- Requests and answers of net/http, as far as internal/adapters/primary/web reads and writes them,
-- the keys of the request's context (middlewares/context.go, audit_midlleware.go, auth.go) and the
-- decorators of web/server.go. Header names are in their canonical spelling; the text of an error
-- answer is left out.
use nexora_core.Prelude.{
  ℕ, String, Option, none, some, [], ◌∷◌, ◌++◌, Dict, lookup, str_eq, if◌then◌else◌,
}
use nexora_core.Services.Auth.{UserClaims}

-- `context.WithValue` under AuthClaimsKey, TenantIDKey, ActorIDKey and TraceIDKey.
pub record Context : Type 0 where
  pub auth_claims : Option UserClaims
  pub tenant_id : Option String
  pub actor_id : Option String
  pub trace_id : Option String

abbrev pub background : Context
background = record { auth_claims = none; tenant_id = none; actor_id = none; trace_id = none }

pub record Request : Type 0 where
  pub method : String
  pub path : String
  pub headers : Dict String
  pub query : Dict String
  pub remote_addr : String
  pub context : Context

-- `Header.Get` and `Values.Get`: an absent value is the empty text.
abbrev pub get : String → Dict String → String
get k m = elim (lookup k m) [ none ↦ "" | some v ↦ v ]

pub record Reply (Body : Type 0) : Type 0 where
  pub status : ℕ
  pub headers : Dict String
  pub body : Option Body

abbrev pub empty_reply : {B : Type 0} → ℕ → Reply B
empty_reply status = record { status = status; headers = []; body = none }

-- Headers that are set before the next handler runs, which may set them again.
abbrev pub with_headers : {B : Type 0} → Dict String → Reply B → Reply B
with_headers hs p = record p { headers = p.headers ++ hs }

-- A handler works on the state of the server.
abbrev pub Handler : Type 0 → Type 0 → Type 0
Handler S B = Request → S → Reply B × S

abbrev pub json_header : Dict String
json_header = ("Content-Type", "application/json") ∷ []

-- `writeJSONError`, `renderError` and `writeForbiddenError`
abbrev pub json_error : {S B : Type 0} → ℕ → S → Reply B × S
json_error status s = (with_headers json_header (empty_reply status), s)

module _ {S B : Type 0} where
  -- `onlyPost` and `onlyGet`
  unfoldable pub only_method : String → Handler S B → Handler S B
  only_method method next r s = if str_eq r.method method then next r s else json_error 405 s

  abbrev pub only_post : Handler S B → Handler S B
  only_post = only_method "POST"

  abbrev pub only_get : Handler S B → Handler S B
  only_get = only_method "GET"
