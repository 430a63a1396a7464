-- ===== src/Web/Jwks/Published.antt =====
-- What the endpoint of jwks_handler.go publishes and when a client may keep it.
use nexora_core.Prelude.{
  ◌≡◌, ◌≢◌, ◌⊎◌, inl, inr, refl, ◌∙◌, String, Bool, true, false, Option, none, some, List, [], ◌∷◌,
  Dict, lookup, str_eq, eq_iff, if◌then◌else◌, Bool-cases, arith,
}
use nexora_core.Domain.Errors.{ok}
use nexora_core.Services.Jwks.Service.{Crypto, Service}
use nexora_core.Web.Http.{Request, get}
use nexora_core.Web.Jwks.{Jwk, Publisher, jwks_of, get_jwks, etag_of, serve_jwks}

-- Is there a key with that kid?
abbrev pub has_kid : String → List Jwk → Bool
has_kid kid [] = false
has_kid kid (k ∷ ks) = if str_eq k.kid kid then true else has_kid kid ks

abbrev pub is_some : {A : Type 0} → Option A → Bool
is_some none = false
is_some (some a) = true

module _ (y : Crypto) (b : Publisher y) where
  has_kid-jwks_of :
      (kid : String) (m : Dict y.PublicKey) → has_kid kid (jwks_of y b m) ≡ is_some (lookup kid m)
  unfolding jwks_of
  has_kid-jwks_of kid [] = refl
  has_kid-jwks_of kid ((k, key) ∷ m) = elim (Bool-cases (str_eq k kid)) [
    | inl e ↦ rw (e, jwks_of) refl
    | inr e ↦ rw (e, jwks_of) (has_kid-jwks_of kid m)
  ]

  -- The endpoint publishes the kids of the keys in memory and no other, when sorting keeps the kids.
  get_jwks-kids :
      (kid : String) (s : Service y)
      → ((ks : List Jwk) → has_kid kid (b.sort_by_kid ks) ≡ has_kid kid ks)
      → has_kid kid (get_jwks y b s) ≡ is_some (lookup kid s.public_keys)
  unfolding get_jwks
  get_jwks-kids kid s kept = kept (jwks_of y b s.public_keys) ∙ has_kid-jwks_of kid s.public_keys

  -- A client that asks again with the tag of the document that the keys have now is told to keep it,
  -- and one that asks with any other tag gets the document with that tag, when JSON can write it.
  serve_jwks-conditional :
      (text : b.Data) (r : Request) (s : Service y)
      → b.marshal (get_jwks y b s) ≡ ok text
      → r.method ≡ "GET"
      → let p = serve_jwks y b r s in
        let tag = get "If-None-Match" r.headers in
        ((tag ≡ etag_of y b text) × (p.status ≡ 304) × (p.body ≡ none))
        ⊎ ((tag ≢ etag_of y b text)
            × (p.status ≡ 200)
            × (p.body ≡ some text)
            × (get "ETag" p.headers ≡ etag_of y b text))
  unfolding serve_jwks
  serve_jwks-conditional text r s written method =
      let tag = get "If-None-Match" r.headers in
      elim (Bool-cases (str_eq tag (etag_of y b text))) [
        | inl e ↦ inl (
          (eq_iff tag (etag_of y b text)).0 e,
          rw (serve_jwks, method, written, e) refl,
          rw (serve_jwks, method, written, e) refl,
        )
        | inr e ↦ inr (
          ground (arith, e, eq_iff tag (etag_of y b text)),
          rw (serve_jwks, method, written, e) refl,
          rw (serve_jwks, method, written, e) refl,
          rw (serve_jwks, method, written, e) refl,
        )
      ]
