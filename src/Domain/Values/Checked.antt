-- ===== src/Domain/Values/Checked.antt =====
-- What the constructors of value_objects.go guarantee of the values they return.
use nexora_core.Prelude.{
  ℕ, ◌≤◌, ◌≡◌, refl, ap, subst, ◌∙◌, String, Bool, true, false, none, some, List, arith,
}
use nexora_core.Domain.Errors.{domain, DomainError, Result, ok, err, err_invalid_mac}
use nexora_core.Services.Auth.Steps.{ok-ne}
use nexora_core.Domain.Values.{
  Texts, is_name_char, all_chars, chars, matches_username, valid_if, new_username, new_tenant_id,
  Mac, mac_of, parse_mac_text, mac_text, marshal_mac, read_mac, unmarshal_mac,
}

valid_if-ok :
    (b : Bool) (e : DomainError) (v w : String) → valid_if b e v ≡ ok w → (b ≡ true) × (v ≡ w)
valid_if-ok true e v w h = (refl, ap (λ (r : Result String). elim r [ ok a ↦ a | err x ↦ v ]) h)
valid_if-ok false e v w h = absurd (ok-ne (domain e) w h)

-- A user name that is accepted is the given text, has 3 to 32 characters, and each is a letter, a
-- digit, `_` or `-`.
new_username-checked :
    (v w : String)
    → new_username v ≡ ok w
    → (v ≡ w) × (all_chars is_name_char v ≡ true) × (3 ≤ chars v) × (chars v ≤ 32)
unfolding new_username matches_username
new_username-checked v w h =
    let (m, same) = valid_if-ok (matches_username v) _ v w h in
    (same, ground (arith, m), ground (arith, m), ground (arith, m))

module _ (t : Texts) where
  -- An identifier of a tenant is stored as it was read: parsing it again gives the same text, when
  -- the case of a text does not matter to the parser of UUIDs and lowering twice changes nothing.
  new_tenant_id-stable :
      (v w : String)
      → ((s : String) → t.is_uuid (t.lower s) ≡ t.is_uuid s)
      → ((s : String) → t.lower (t.lower s) ≡ t.lower s)
      → new_tenant_id t v ≡ ok w
      → new_tenant_id t w ≡ ok w
  unfolding new_tenant_id
  new_tenant_id-stable v w uuid twice h =
      let (m, same) = valid_if-ok (t.is_uuid v) _ (t.lower v) w h in
      subst (λ (x : String). new_tenant_id t x ≡ ok x) same
        (rw (new_tenant_id, uuid v, m, twice v) refl)

  -- The JSON of a MAC address reads back as that address, and the JSON of the zero value is refused.
  pub unmarshal_mac-marshal_mac :
      (bytes : List ℕ)
      → ((s : String) → t.unmarshal_text (t.marshal_text s) ≡ ok s)
      → t.parse_mac (t.show_mac bytes) ≡ some bytes
      → t.parse_mac "" ≡ none
      → let mac : Mac t = record { value = some bytes } in
        let zero_mac : Mac t = record { value = none } in
        (unmarshal_mac t (marshal_mac t mac) ≡ ok mac)
        × (unmarshal_mac t (marshal_mac t zero_mac) ≡ err (domain err_invalid_mac))
  unfolding unmarshal_mac marshal_mac mac_text parse_mac_text
  unmarshal_mac-marshal_mac bytes json back zero = (
    ap (read_mac t) (json (t.show_mac bytes)) ∙ ap (mac_of t) back,
    ap (read_mac t) (json "") ∙ ap (mac_of t) zero,
  )
