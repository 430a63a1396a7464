-- ===== src/Services/Auth/OverRedis.antt =====
-- The service of auth_service.go with the refresh token repository of Redis, as cmd/api/main.go puts
-- them together. The other ports keep their world beside the store.
pub mod FirstRefresh
pub mod FirstLogin
pub mod SecondFactor
mod Tests
use nexora_core.Prelude.{String, Option}
use nexora_core.Prelude.Int.{ℤ}
use nexora_core.Redis.Client.{Delivery, Action}
use nexora_core.Redis.Tokens.Document.{Json}
use nexora_core.Redis.Tokens.Script.{TokenRedis}
use nexora_core.Redis.Tokens.Repository.{save, rotate, revoke}
use nexora_core.Services.Auth.{AuditContext, Backend}

-- What the repository meets: the outcomes of its round trips, its own readings of the clock, and the
-- random secret of a rotation.
pub record TokenTrips : Type 0 where
  pub save_trip : Delivery
  pub save_time : ℤ
  pub rotate_trip : Delivery
  pub rotate_time : ℤ
  pub new_raw : String
  pub find_trip : Delivery
  pub members_trip : Delivery
  pub delete_trip : Delivery

module _ {W S : Type 0} where
  -- A call of another port, which leaves the store alone.
  abbrev pub beside : {A : Type 0} → Action W A → Action (W × S) A
  beside m (w, s) = ((m w).0, ((m w).1, s))

  abbrev pub read_beside : {A : Type 0} → (W → A × W) → W × S → A × (W × S)
  read_beside f (w, s) = ((f w).0, ((f w).1, s))

  -- A call of the store.
  abbrev pub on_store : {A : Type 0} → Action S A → Action (W × S) A
  on_store m (w, s) = ((m s).0, (w, (m s).1))

module _ (r : TokenRedis) (decode_null : Option Json) (hash : String → String) where
  abbrev pub over_redis : TokenTrips → Backend → Backend
  over_redis t b = record {
    World = b.World × r.Store;
    Score = b.Score;
    Key = b.Key;
    now = read_beside b.now;
    new_uuid = read_beside b.new_uuid;
    show_duration = b.show_duration;
    lower = b.lower;
    trim_space = b.trim_space;
    password_matches = b.password_matches;
    mfa_by_risk_threshold = b.mfa_by_risk_threshold;
    is_at_least = b.is_at_least;
    get_by_username = λ tenant name. beside (b.get_by_username tenant name);
    get_by_id = λ id. beside (b.get_by_id id);
    start_session = λ s. beside (b.start_session s);
    terminate_session = λ id. beside (b.terminate_session id);
    is_locked = λ key. beside (b.is_locked key);
    record_failed_attempt = λ key. beside (b.record_failed_attempt key);
    clear_attempts = λ key. beside (b.clear_attempts key);
    save_refresh = λ token. on_store (save r decode_null hash t.save_trip t.save_time token);
    rotate_refresh = λ raw now ctx.
        on_store (rotate r decode_null hash t.rotate_trip t.new_raw now t.rotate_time raw);
    revoke_refresh =
        λ raw. on_store (revoke r decode_null hash t.find_trip t.members_trip t.delete_trip raw);
    user_health = beside b.user_health;
    session_health = beside b.session_health;
    refresh_health = beside b.refresh_health;
    compute_risk = λ user ctx. read_beside (b.compute_risk user ctx);
    send_otp = λ user method. beside (b.send_otp user method);
    verify_otp = λ user code. read_beside (b.verify_otp user code);
    submit = λ entry w. (b.submit entry w.0, w.1);
    current_private_key = read_beside b.current_private_key;
    sign = b.sign;
    parse_claims = λ token. beside (b.parse_claims token);
  }
