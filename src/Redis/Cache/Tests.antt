-- ===== src/Redis/Cache/Tests.antt =====
-- Runs of the caches with NAS objects that are their own JSON.
use nexora_core.Prelude.{◌≡◌, refl, true, false, some, [], ◌∷◌}
use nexora_core.Prelude.Int.{pos}
use nexora_core.Domain.Errors.{ok}
use nexora_core.Domain.Nas.{Nas}
use nexora_core.Redis.Client.{delivered, lost_request}
use nexora_core.Redis.Cache.{
  blacklist_token, is_token_blacklisted, NasCodec, set_nas, get_nas, set, get, read_nas,
}

abbrev codec : NasCodec
codec = record {
  Data = Nas;
  marshal = λ n. ok n;
  unmarshal = λ n. ok n;
  show_ip = λ ip. "10.0.0.1";
}

abbrev nas : Nas
nas = record {
  id = "n";
  tenant_id = "t";
  identifier = "";
  short_name = "edge";
  ip_address = some (10 ∷ 0 ∷ 0 ∷ 1 ∷ []);
  secret = "s";
  active = true;
  version = 1;
  created_at = pos 1;
  updated_at = pos 1;
}

blacklisted : (is_token_blacklisted "a" delivered (blacklist_token "a" delivered []).1).0 ≡ ok true
unfolding is_token_blacklisted blacklist_token set get
blacklisted = refl

failing_check_passes :
    (is_token_blacklisted "a" (lost_request "eof") (blacklist_token "a" delivered []).1).0
    ≡ ok false
unfolding is_token_blacklisted blacklist_token set get
failing_check_passes = refl

stored_nas :
    (get_nas codec "10.0.0.1" delivered (set_nas codec (some nas) delivered []).1).0 ≡ ok nas
unfolding get_nas set_nas read_nas
stored_nas = refl
