-- ===== src/Domain/Nas/Life.antt =====
-- Every sequence of changes of a NAS of internal/core/domain/nas.go.
use nexora_core.Prelude.{◌≡◌, String, false, is_empty, List, [], ◌∷◌, arith, refl, ◌∙◌}
use nexora_core.Prelude.Int.{ℤ}
use nexora_core.Domain.Errors.{ok}
use nexora_core.Domain.Nas.{
  Nas, NewNasParams, new_nas, activate, deactivate, update_secret, is_bad_ip,
}

pub data NasChange : Type 0 where
  activation deactivation : ℤ → NasChange
  new_secret : String → ℤ → NasChange

abbrev pub change : NasChange → Nas → Nas
change (activation now) n = activate now n
change (deactivation now) n = deactivate now n
change (new_secret secret now) n = (update_secret secret now n).1

pub changes : List NasChange → Nas → Nas
changes [] n = n
changes (c ∷ cs) n = changes cs (change c n)

-- The server can be addressed and holds a shared secret.
pub record IsUsable (n : Nas) : Type 0 where
  pub named : is_empty n.short_name ≡ false
  pub addressed : is_bad_ip n.ip_address ≡ false
  pub keyed : is_empty n.secret ≡ false

change-IsUsable : (c : NasChange) (n : Nas) → IsUsable n → IsUsable (change c n)
unfolding activate deactivate update_secret
change-IsUsable (activation now) n h = ground arith
change-IsUsable (deactivation now) n h = ground arith
change-IsUsable (new_secret secret now) n h = ground arith

changes-IsUsable : (cs : List NasChange) (n : Nas) → IsUsable n → IsUsable (changes cs n)
unfolding changes
changes-IsUsable [] n h = h
changes-IsUsable (c ∷ cs) n h = changes-IsUsable cs (change c n) (change-IsUsable c n h)

changes-tenant_id : (cs : List NasChange) (n : Nas) → (changes cs n).tenant_id ≡ n.tenant_id
unfolding changes activate deactivate update_secret
changes-tenant_id [] n = refl
changes-tenant_id (activation now ∷ cs) n = changes-tenant_id cs (activate now n) ∙ ground arith
changes-tenant_id (deactivation now ∷ cs) n = changes-tenant_id cs (deactivate now n) ∙ ground arith
changes-tenant_id (new_secret s now ∷ cs) n =
    changes-tenant_id cs (update_secret s now n).1 ∙ ground arith

-- A server that NewNAS accepts has a name, a specified address and a shared secret, and keeps them
-- and its tenant through any sequence of activations, deactivations and changes of the secret.
new_nas-IsUsable :
    (params : NewNasParams) (now : ℤ) (cs : List NasChange) {n : Nas}
    → new_nas params now ≡ ok n
    → IsUsable (changes cs n) × ((changes cs n).tenant_id ≡ params.tenant_id)
unfolding new_nas
new_nas-IsUsable params now cs {n} e =
    (changes-IsUsable cs n (ground arith), changes-tenant_id cs n ∙ ground arith)
