-- ===== src/Web/Routes/Access.antt =====
-- Who gets an answer with a body from the guarded routes of server.go and main.go.
use nexora_core.Prelude.{
  ◌≡◌, ◌⊎◌, inl, inr, refl, sym, ap, subst, ◌∙◌, String, true, is_empty, [], Option, none, some,
  List, contains, lookup, str_eq, Bool-cases, arith,
}
use nexora_core.Domain.Errors.{Result, ok, err}
use nexora_core.Services.Auth.{AuditLog}
use nexora_core.Services.Audit.{AuditFilter}
use nexora_core.Web.Http.{Request, Reply, only_method, only_get}
use nexora_core.Web.Limiter.{
  LimitTrips, Verdict, above, within, unchecked, ServerState, answer_verdict, limit_requests,
}
use nexora_core.Web.Guards.{Reading, with_identity, audit_middleware, traced, text_of}
use nexora_core.Web.Guards.Access.{Login, after, require_auth-require_role}
use nexora_core.Web.Logs.{
  Content, logs_page, build_audit_filter_from_request, with_logs, of_tenant, get_logs_handler,
}
use nexora_core.Web.Routes.{
  admins, Server, Route, serve_mux, limited, admin_only, audit_chain, on_method, users, routes,
  main_routes, serve_http,
}

module _ {World Score : Type 0} (v : Server World Score) where
  abbrev State : Type 0
  State = ServerState World

  answer_verdict-body :
      (x : Verdict) (next : Route v) (r : Request) (s : State)
      → ((answer_verdict v.rate_limiter v.show x next r s).0.body ≡ none)
        ⊎ ((answer_verdict v.rate_limiter v.show x next r s).0.body ≡ (next r s).0.body)
  answer_verdict-body (above d) next r s = inl refl
  answer_verdict-body (within n) next r s = inr refl
  answer_verdict-body unchecked next r s = inr refl

  -- The limiter answers without a body, or with that of the next handler.
  limited-body :
      (t : LimitTrips) (next : Route v) (r : Request) (s : State)
      → ((limited v t next r s).0.body ≡ none)
        ⊎ ((s' : State) × ((limited v t next r s).0.body ≡ (next r s').0.body))
  unfolding limit_requests
  limited-body t next r s = elim (answer_verdict-body _ next r _) [
    | inl e ↦ inl e
    | inr e ↦ inr (_, e)
  ]

  only_get-body :
      (next : Route v) (r : Request) (s : State)
      → ((only_get next r s).0.body ≡ none) ⊎ ((only_get next r s).0.body ≡ (next r s).0.body)
  unfolding only_method
  only_get-body next r s = elim (Bool-cases (str_eq r.method "GET")) [
    | inl e ↦ inr (rw (only_method, e) refl)
    | inr e ↦ inl (rw (only_method, e) refl)
  ]

  -- The page of a search of one tenant.
  pub record Page (tenant : String) (s : State) (body : Option (Content Score)) : Type 0 where
    pub filter : AuditFilter
    pub logs : List (AuditLog Score)
    pub own : filter.tenant_id ≡ tenant
    pub found : (v.audit_logs filter s).0 ≡ ok logs
    pub same : body ≡ some (logs_page logs filter.limit filter.offset)

  with_logs-body :
      (f : AuditFilter) (p : Result (List (AuditLog Score)) × State)
      → ((with_logs v.parsers v.audit_logs f p).0.body ≡ none)
        ⊎ ((logs : List (AuditLog Score)) × (p.0 ≡ ok logs)
            × ((with_logs v.parsers v.audit_logs f p).0.body
                ≡ some (logs_page logs f.limit f.offset)))
  with_logs-body f (err e, s) = inl refl
  with_logs-body f (ok logs, s) = inr (logs, refl, refl)

  of_tenant-body :
      (r : Request) (s : State) (o : Result String)
      → ((of_tenant v.parsers v.audit_logs r s o).0.body ≡ none)
        ⊎ ((tenant : String) × (o ≡ ok tenant)
            × Page tenant s (of_tenant v.parsers v.audit_logs r s o).0.body)
  unfolding build_audit_filter_from_request
  of_tenant-body r s (err e) = inl refl
  of_tenant-body r s (ok tenant) =
      let f = build_audit_filter_from_request v.parsers r tenant in
      elim (with_logs-body f (v.audit_logs f s)) [
        | inl e ↦ inl e
        | inr (logs, found, e) ↦
            inr (
              tenant,
              refl,
              record { filter = f; logs = logs; own = refl; found = found; same = e },
            )
      ]

  get_logs_handler-body :
      (r : Request) (s : State)
      → ((get_logs_handler v.parsers v.audit_logs r s).0.body ≡ none)
        ⊎ ((tenant : String) × (v.parsers.parse_tenant_id (text_of r.context.tenant_id) ≡ ok tenant)
            × Page tenant s (get_logs_handler v.parsers v.audit_logs r s).0.body)
  unfolding get_logs_handler
  get_logs_handler-body r s = elim (Bool-cases (is_empty (text_of r.context.tenant_id))) [
    | inl e ↦ inl (rw (get_logs_handler, e) refl)
    | inr e ↦ elim (of_tenant-body r s (v.parsers.parse_tenant_id (text_of r.context.tenant_id))) [
      | inl same ↦ inl (rw (get_logs_handler, e) same)
      | inr (tenant, parsed, page) ↦ inr (tenant, parsed, rw (get_logs_handler, e) page)
    ]
  ]

  -- What an answer of the audit route with a body tells: the request came past the limiter with a
  -- valid access token of an administrator, and the body is the page of that token's tenant.
  pub record Audited (r : Request) (body : Option (Content Score)) : Type 0 where
    pub start : State
    pub login : Login v.validate_access_token r start
    pub admin : contains admins login.claims.role ≡ true
    pub tenant : String
    pub parsed : v.parsers.parse_tenant_id login.claims.tenant_id ≡ ok tenant
    pub page : Page tenant (after v.validate_access_token login) body

  guarded-body :
      (r : Request) (s : State)
      → let p = admin_only v (only_get (get_logs_handler v.parsers v.audit_logs)) r s in
        (p.0.body ≡ none) ⊎ Audited r p.0.body
  guarded-body r s =
      let h : Route v = get_logs_handler v.parsers v.audit_logs in
      let body = λ (p : Reply (Content Score) × State). p.0.body in
      elim (require_auth-require_role v.validate_access_token admins (only_get h) r s) [
        | inl (t, inl e) ↦ inl (ap body e)
        | inl (t, inr e) ↦ inl (ap body e)
        | inr (l, role, e) ↦
            let s' = after v.validate_access_token l in
            let r' = with_identity l.claims r in
            elim (only_get-body h r' s') [
              | inl bare ↦ inl (ap body e ∙ bare)
              | inr through ↦ elim (get_logs_handler-body r' s') [
                | inl bare ↦ inl (ap body e ∙ through ∙ bare)
                | inr (tenant, parsed, page) ↦ inr (record {
                  start = s;
                  login = l;
                  admin = role;
                  tenant = tenant;
                  parsed = parsed;
                  page = subst (Page tenant s') (sym (ap body e ∙ through)) page;
                })
              ]
            ]
      ]

  mux-audit :
      (t : LimitTrips) (r : Request) (s : State)
      → r.path ≡ "/v1/audit"
      → serve_mux v (routes v t) r s ≡ audit_chain v t r s
  unfolding routes
  mux-audit t r s e =
      ap
        (λ (path : String).
          (elim (lookup path (routes v t)) as (λ x. Route v) [
            | none ↦ λ r s. (record { status = 404; headers = []; body = none }, s)
            | some h ↦ h
          ])
            r s)
        e

  -- The audit route of the server shows a tenant's entries to nobody else: an answer to a request of
  -- `/v1/audit` has no body, or the request carries a valid access token with the role of an
  -- administrator and the body is a page that the service found for the tenant of that token.
  pub serve_http-audit :
      (t : LimitTrips) (m : Reading) (r : Request) (s : State)
      → r.path ≡ "/v1/audit"
      → let body = (serve_http v t m r s).0.body in (body ≡ none) ⊎ Audited (traced m r) body
  unfolding serve_http audit_middleware traced
  serve_http-audit t m r s e =
      let next : Route v = admin_only v (only_get (get_logs_handler v.parsers v.audit_logs)) in
      let to : (serve_http v t m r s).0.body ≡ (limited v t next (traced m r) s).0.body =
        ap (λ (p : Reply (Content Score) × State). p.0.body) (mux-audit t (traced m r) s e) in
      elim (limited-body t next (traced m r) s) [
        | inl bare ↦ inl (to ∙ bare)
        | inr (s', through) ↦ elim (guarded-body (traced m r) s') [
          | inl bare ↦ inl (to ∙ through ∙ bare)
          | inr audited ↦ inr (subst (Audited (traced m r)) (sym (to ∙ through)) audited)
        ]
      ]

  on_method-status :
      (method : String) (next : Route v) (r : Request) (s : State)
      → (on_method v method next r s).0.status ≡ 200
      → (next r s).0.status ≡ 200
  on_method-status method next r s h = ground (arith, h)

  -- A request that the route `/v1/users` of main.go answers with 200 carries a valid access token
  -- with the role of an administrator.
  main_routes-users :
      (r : Request) (s : State)
      → r.path ≡ "/v1/users"
      → (serve_mux v (main_routes v) r s).0.status ≡ 200
      → (l : Login v.validate_access_token r s) × (contains admins l.claims.role ≡ true)
  unfolding main_routes
  main_routes-users r s e h =
      let to : serve_mux v (main_routes v) r s ≡ on_method v "POST" (admin_only v (users v)) r s =
        ap
          (λ (path : String).
            (elim (lookup path (main_routes v)) as (λ x. Route v) [
              | none ↦ λ r s. (record { status = 404; headers = []; body = none }, s)
              | some h ↦ h
            ])
              r s)
          e in
      let status = λ (p : Reply (Content Score) × State). p.0.status in
      let answered : (admin_only v (users v) r s).0.status ≡ 200 =
        on_method-status "POST" (admin_only v (users v)) r s (sym (ap status to) ∙ h) in
      elim (require_auth-require_role v.validate_access_token admins (users v) r s) [
        | inl (t, inl x) ↦ absurd (let y = sym (ap status x) ∙ answered in omega arith)
        | inl (t, inr x) ↦ absurd (let y = sym (ap status x) ∙ answered in omega arith)
        | inr (l, role, x) ↦ (l, role)
      ]
