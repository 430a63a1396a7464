-- ===== src/Redis/Tokens/Repository.antt =====
-- internal/adapters/secondary/redis/refresh_token_repository.go. SHA-256 with its hexadecimal
-- printing is the parameter `hash`; the random secret, the clock readings and the outcomes of the
-- round trips are arguments.
pub mod Tests
pub mod Rotation
pub mod Families
use text.Mathlib.Text.{find?}
use nexora_core.Prelude.{
  ℕ, suc, ◌*◌, ◌/◌, String, ◌<>◌, Bool, true, false, is_empty, Option, none, some, List, [], ◌∷◌,
  if◌then◌else◌,
}
use nexora_core.Prelude.Int.{ℤ, pos, negsuc, sub_ℕ, ◌+ℤ◌, leb_ℤ, time_sub}
use nexora_core.Domain.Errors.{Error, domain, wrap, plain, Result, ok, err, err_replay_detected}
use nexora_core.Redis.Client.{Delivery, Action, pure, fail, attempt, ◌>>=◌, ◌>>◌, call, query, send}
use nexora_core.Redis.Tokens.Document.{Json, Document, RefreshToken, marshal, unmarshal}
use nexora_core.Redis.Tokens.Script.{
  TokenRedis, Reply, reply, error_reply, rotate_script, del_members, millisecond,
}

abbrev pub token_key : String → String
token_key hashed = "rt:" <> hashed

-- `tokenFamilyKeyPrefix`
abbrev pub family_key : String → String
family_key family = "family:" <> family

-- `strings.Contains(text, part)`
unfoldable pub has_part : String → String → Bool
has_part text part = elim (find? text part) [ none ↦ false | some i ↦ true ]

-- `d.Milliseconds()`, which rounds towards zero.
unfoldable pub milliseconds : ℤ → ℤ
milliseconds (pos n) = pos (n / millisecond)
milliseconds (negsuc n) = sub_ℕ 0 (suc n / millisecond)

-- `json.Unmarshal` with its error wrapped.
abbrev pub lifted : {S A : Type 0} → String → Result A → Action S A
lifted message (ok a) = pure a
lifted message (err e) = fail (wrap message e "")

-- The new secret goes back into the token.
abbrev pub with_raw : String → RefreshToken → RefreshToken
with_raw raw t = record t { token_raw = raw }

abbrev pub seven_days : ℤ
seven_days = pos (7 * 24 * 3600 * 1000 * millisecond)

-- The errors of a script run, by their text.
unfoldable pub script_error : String → Error
script_error m =
    if has_part m "REPLAY_DETECTED"
    then domain err_replay_detected
    else if has_part m "TOKEN_NOT_FOUND"
    then plain "token not found in redis"
    else wrap "token_repo: lua execution error: " (plain m) ""

-- The partial token that the script completes.
unfoldable pub new_token : String → String → ℤ → RefreshToken
new_token hashed raw now = record {
  id = hashed;
  family_id = "";
  user_id = "";
  tenant_id = "";
  token_hash = "";
  token_raw = raw;
  parent_id = none;
  expires_at = now +ℤ seven_days;
  created_at = now;
  used_at = none;
  revoked_at = none;
}

module _ (r : TokenRedis) (decode_null : Option Json) (hash : String → String) where
  open r use {Store, get, members, set, sadd, pexpire, del}

  unfoldable pub save : Delivery → ℤ → RefreshToken → Action Store (Unit {0})
  save d now t =
      let ttl = time_sub t.expires_at now in
      let key = token_key (hash t.token_raw) in
      if leb_ℤ ttl (pos 0)
      then fail (plain "token_repo: token already expired")
      else send d (λ s.
        pexpire (family_key t.family_id) ttl
          (sadd (family_key t.family_id) key (set key (marshal t) ttl s)))

  -- The answer of the script run: its text is an error, or the JSON of the final token.
  unfoldable pub finish_rotation : String → Reply → Action Store RefreshToken
  finish_rotation raw (error_reply m) = fail (script_error m)
  finish_rotation raw (reply d) = do
    t ← lifted "token_repo: fail to unmarshal rotated token: " (unmarshal d)
    pure (with_raw raw t)

  -- The error of a run that did not come back is read by its text, too.
  abbrev transport_error : Error → Error
  transport_error (plain m) = script_error m
  transport_error e = wrap "token_repo: lua execution error: " e ""

  unfoldable pub rotate : Delivery → String → ℤ → ℤ → String → Action Store RefreshToken
  rotate d raw now now' old_raw s =
      let new = new_token (hash raw) raw now in
      let ttl = milliseconds (time_sub new.expires_at now') in
      let (answer, t) =
        call d
          (rotate_script r decode_null (token_key (hash old_raw)) (token_key (hash raw))
            (marshal new) ttl now)
          s in
      elim answer [ ok a ↦ finish_rotation raw a t | err e ↦ fail (transport_error e) t ]

  unfoldable pub get_by_hash : Delivery → String → Action Store RefreshToken
  get_by_hash d hashed = do
    found ← query d (get (token_key hashed))
    elim found [ none ↦ fail (plain "token not found") | some doc ↦ λ s. (unmarshal doc, s) ]

  -- SMEMBERS, then one pipeline with both DEL commands.
  unfoldable pub revoke_family : Delivery → Delivery → String → Action Store (Unit {0})
  revoke_family d d' family = do
    hashes ← query d (members (family_key family))
    send d' (λ s. del (family_key family ∷ []) (del_members r decode_null hashes s))

  unfoldable pub revoke : Delivery → Delivery → Delivery → String → Action Store (Unit {0})
  revoke d d' d'' raw = if is_empty raw then pure tt else do
    found ← query d (get (token_key (hash raw)))
    elim found [
      | none ↦ pure tt
      | some doc ↦ do
        t ← lifted "redis_revoke: unmarshal failed: " (unmarshal doc)
        revoke_family d' d'' t.family_id
    ]
