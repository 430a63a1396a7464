-- ===== src/Web/Logs.antt =====
-- internal/adapters/primary/web/handlers/audit_handler.go: GetLogs and the parsing of its query.
-- `strconv.Atoi` without its error, `time.Parse` and `ParseTenantID` are the parameter `Parsers`;
-- the service is an action on the state of the server. Log lines are left out.
use nexora_core.Prelude.{String, is_empty, Option, none, some, List, if◌then◌else◌}
use nexora_core.Prelude.Int.{ℤ, pos, ltb_ℤ, leb_ℤ}
use nexora_core.Domain.Errors.{Result, ok, err}
use nexora_core.Redis.Client.{Action}
use nexora_core.Services.Auth.{AuditLog, TokenPair, UserClaims}
use nexora_core.Services.Audit.{AuditFilter}
use nexora_core.Web.Http.{
  Request, get, Reply, Handler, with_headers, empty_reply, json_header, json_error,
}
use nexora_core.Web.Guards.{text_of}

-- The bodies of answers that are not errors.
pub data Content (Score : Type 0) : Type 0 where
  tokens : TokenPair → Content Score
  identity : UserClaims → Content Score
  logs_page : List (AuditLog Score) → ℤ → ℤ → Content Score

pub record Parsers : Type 0 where
  pub atoi : String → ℤ
  pub parse_time : String → Option ℤ
  pub parse_tenant_id : String → Result String

module _ (p : Parsers) where
  open p use {atoi, parse_time, parse_tenant_id}

  unfoldable pub parse_pagination : String → String → ℤ × ℤ
  parse_pagination limit offset = (
    if leb_ℤ (atoi limit) (pos 0)
        then pos 50
        else if ltb_ℤ (pos 1000) (atoi limit)
        then pos 1000
        else atoi limit,
    if ltb_ℤ (atoi offset) (pos 0) then pos 0 else atoi offset,
  )

  -- A text that does not parse is a zero time, as a text that is not there.
  unfoldable pub parse_date : String → Option ℤ
  parse_date text = if is_empty text then none else parse_time text

  unfoldable pub build_audit_filter_from_request : Request → String → AuditFilter
  build_audit_filter_from_request r tenant =
      let (limit, offset) = parse_pagination (get "limit" r.query) (get "offset" r.query) in
      let actor = get "actor_id" r.query in
      record {
        tenant_id = tenant;
        actor_id = if is_empty actor then get "user_id" r.query else actor;
        action = get "action" r.query;
        status = "";
        trace_id = "";
        ip_address = get "ip_address" r.query;
        start_date = parse_date (get "start_date" r.query);
        end_date = parse_date (get "end_date" r.query);
        limit = limit;
        offset = offset;
      }

  module _ {S Score : Type 0} (service : AuditFilter → Action S (List (AuditLog Score))) where
    abbrev pub with_logs :
        AuditFilter → Result (List (AuditLog Score)) × S → Reply (Content Score) × S
    with_logs f (err e, s) = json_error 500 s
    with_logs f (ok logs, s) = (
      with_headers json_header
          (record (empty_reply 200) { body = some (logs_page logs f.limit f.offset) }),
      s,
    )

    abbrev pub of_tenant : Request → S → Result String → Reply (Content Score) × S
    of_tenant r s (err e) = json_error 400 s
    of_tenant r s (ok tenant) =
        let f = build_audit_filter_from_request r tenant in with_logs f (service f s)

    unfoldable pub get_logs_handler : Handler S (Content Score)
    get_logs_handler r s =
        let tenant = text_of r.context.tenant_id in
        if is_empty tenant then json_error 401 s else of_tenant r s (parse_tenant_id tenant)
