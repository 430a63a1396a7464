-- ===== src/Redis/Tokens/Document.antt =====
-- The refresh token of internal/core/domain/token.go and its JSON, as encoding/json writes and
-- reads it: the fields under their Go names, nil pointers as `null`. A JSON time is a value of its
-- own, `unix` is a text of digits, which is no JSON time.
use nexora_core.Prelude.{String, Option, none, some, ◌≡◌, [], ◌∷◌, Dict, lookup, arith}
use nexora_core.Prelude.Int.{ℤ, pos}
use nexora_core.Domain.Errors.{Result, ok, err, plain, ◌>>=◌}

pub record RefreshToken : Type 0 where
  pub id : String
  pub family_id : String
  pub user_id : String
  pub tenant_id : String
  pub token_hash : String
  pub token_raw : String
  pub parent_id : Option String
  pub expires_at : ℤ
  pub created_at : ℤ
  pub used_at : Option ℤ
  pub revoked_at : Option ℤ

pub data Json : Type 0 where
  null : Json
  text : String → Json
  time unix : ℤ → Json

abbrev pub Document : Type 0
Document = Dict Json

text_or_null : Option String → Json
text_or_null none = null
text_or_null (some t) = text t

time_or_null : Option ℤ → Json
time_or_null none = null
time_or_null (some t) = time t

unfoldable pub marshal : RefreshToken → Document
unfolding text_or_null time_or_null
marshal t =
    ("ID", text t.id)
    ∷ ("FamilyID", text t.family_id)
    ∷ ("UserID", text t.user_id)
    ∷ ("TenantID", text t.tenant_id)
    ∷ ("TokenHash", text t.token_hash)
    ∷ ("TokenRaw", text t.token_raw)
    ∷ ("ParentID", text_or_null t.parent_id)
    ∷ ("ExpiresAt", time t.expires_at)
    ∷ ("CreatedAt", time t.created_at)
    ∷ ("UsedAt", time_or_null t.used_at)
    ∷ ("RevokedAt", time_or_null t.revoked_at)
    ∷ []

mismatch : {A : Type 0} → Result A
mismatch = err (plain "json: cannot unmarshal")

-- A field of a Go type from what the document holds under its name.
read_text : Option Json → Result String
read_text (some (text t)) = ok t
read_text (some (time t)) = mismatch
read_text (some (unix t)) = mismatch
read_text _ = ok ""

read_time : Option Json → Result ℤ
read_time (some (time t)) = ok t
read_time (some (text t)) = mismatch
read_time (some (unix t)) = mismatch
read_time _ = ok (pos 0)

read_text_pointer : Option Json → Result (Option String)
read_text_pointer (some (text t)) = ok (some t)
read_text_pointer (some (time t)) = mismatch
read_text_pointer (some (unix t)) = mismatch
read_text_pointer _ = ok none

read_time_pointer : Option Json → Result (Option ℤ)
read_time_pointer (some (time t)) = ok (some t)
read_time_pointer (some (text t)) = mismatch
read_time_pointer (some (unix t)) = mismatch
read_time_pointer _ = ok none

unfoldable pub unmarshal : Document → Result RefreshToken
unfolding read_text read_time read_text_pointer read_time_pointer mismatch
unmarshal d = do
  id ← read_text (lookup "ID" d)
  family ← read_text (lookup "FamilyID" d)
  user ← read_text (lookup "UserID" d)
  tenant ← read_text (lookup "TenantID" d)
  hash ← read_text (lookup "TokenHash" d)
  raw ← read_text (lookup "TokenRaw" d)
  parent ← read_text_pointer (lookup "ParentID" d)
  expires ← read_time (lookup "ExpiresAt" d)
  created ← read_time (lookup "CreatedAt" d)
  used ← read_time_pointer (lookup "UsedAt" d)
  revoked ← read_time_pointer (lookup "RevokedAt" d)
  ok (record {
    id = id;
    family_id = family;
    user_id = user;
    tenant_id = tenant;
    token_hash = hash;
    token_raw = raw;
    parent_id = parent;
    expires_at = expires;
    created_at = created;
    used_at = used;
    revoked_at = revoked;
  })

-- Reading back what was written gives the token.
pub unmarshal-marshal : (t : RefreshToken) → unmarshal (marshal t) ≡ ok t
unfolding unmarshal marshal
unmarshal-marshal t = ground arith
