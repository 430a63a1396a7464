-- ===== src/Domain/Values/Tests.antt =====
-- Values that value_objects.go accepts and refuses.
use nexora_core.Prelude.{◌≡◌, refl, true, false, is_empty, none, some, [], ◌∷◌, if◌then◌else◌}
use nexora_core.Domain.Errors.{domain, ok, err, err_invalid_mac}
use nexora_core.Domain.Values.{
  Texts, matches_username, matches_email, new_username, Mac, marshal_mac, unmarshal_mac,
}
use nexora_core.Domain.Values.Checked.{unmarshal_mac-marshal_mac}

accepts_email : matches_email "a.b+c@mail.example-1.com" ≡ true
unfolding matches_email
accepts_email = refl

refuses_short_domain : matches_email "a@b.c" ≡ false
unfolding matches_email
refuses_short_domain = refl

refuses_no_host : matches_email "a@.com" ≡ false
unfolding matches_email
refuses_no_host = refl

abbrev texts : Texts
texts = record {
  is_uuid = λ s. true;
  lower = λ s. s;
  trim_space = λ s. s;
  parse_mac = λ s. if is_empty s then none else some (1 ∷ 2 ∷ []);
  show_mac = λ bytes. "01:02";
  marshal_text = λ s. s;
  unmarshal_text = λ s. ok s;
}

unmarshal_mac-marshal_mac_example :
    let mac : Mac texts = record { value = some (1 ∷ 2 ∷ []) } in
    let zero_mac : Mac texts = record { value = none } in
    (unmarshal_mac texts (marshal_mac texts mac) ≡ ok mac)
    × (unmarshal_mac texts (marshal_mac texts zero_mac) ≡ err (domain err_invalid_mac))
unmarshal_mac-marshal_mac_example =
    unmarshal_mac-marshal_mac texts (1 ∷ 2 ∷ []) (λ s. refl) refl refl

accepts_name : new_username "root_1" ≡ ok "root_1"
unfolding new_username matches_username
accepts_name = refl
