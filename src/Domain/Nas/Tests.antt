-- ===== src/Domain/Nas/Tests.antt =====
-- A run of internal/core/domain/nas.go.
use nexora_core.Prelude.{◌≡◌, refl, true, some, [], ◌∷◌}
use nexora_core.Prelude.Int.{pos}
use nexora_core.Domain.Errors.{ok}
use nexora_core.Domain.Nas.{Nas, NewNasParams, new_nas, is_unspecified}

abbrev params : NewNasParams
params = record {
  id = "n1";
  tenant_id = "t1";
  identifier = "nas-1";
  short_name = "edge";
  ip = some (10 ∷ 0 ∷ 0 ∷ 1 ∷ []);
  secret = "s3cret";
}

abbrev nas : Nas
nas = record {
  id = "n1";
  tenant_id = "t1";
  identifier = "nas-1";
  short_name = "edge";
  ip_address = some (10 ∷ 0 ∷ 0 ∷ 1 ∷ []);
  secret = "s3cret";
  active = true;
  version = 1;
  created_at = pos 5;
  updated_at = pos 5;
}

created : new_nas params (pos 5) ≡ ok nas
unfolding new_nas is_unspecified
created = refl
