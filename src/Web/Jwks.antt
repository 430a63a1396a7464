-- ===== src/Web/Jwks.antt =====
-- internal/adapters/primary/web/handlers/jwks_handler.go over GetJWKS of
-- internal/core/services/jwks_service.go. The parameters of an RSA key in base64, `sort.Slice`, JSON
-- and the hexadecimal SHA-256 are the parameter `Publisher`.
pub mod Published
mod Tests
use nexora_core.Prelude.{
  String, ◌<>◌, Bool, true, false, Option, none, some, List, [], ◌∷◌, Dict, str_eq, if◌then◌else◌,
}
use nexora_core.Domain.Errors.{Result, ok, err}
use nexora_core.Services.Jwks.Service.{Crypto, Service}
use nexora_core.Web.Http.{Request, get, Reply, with_headers, empty_reply}

pub record Jwk : Type 0 where
  pub kty : String
  pub alg : String
  pub key_use : String
  pub kid : String
  pub n : String
  pub e : String

module _ (y : Crypto) where
  pub record Publisher : Type 1 where
    pub Data : Type 0
    pub encode_rsa_key_params : y.PublicKey → String × String
    pub sort_by_kid : List Jwk → List Jwk
    pub marshal : List Jwk → Result Data
    pub digest : Data → String

  module _ (b : Publisher) where
    open b use {Data, encode_rsa_key_params, sort_by_kid, marshal, digest}

    abbrev pub jwk : String → y.PublicKey → Jwk
    jwk kid key = record {
      kty = "RSA";
      alg = "RS256";
      key_use = "sig";
      kid = kid;
      n = (encode_rsa_key_params key).0;
      e = (encode_rsa_key_params key).1;
    }

    unfoldable pub jwks_of : Dict y.PublicKey → List Jwk
    jwks_of [] = []
    jwks_of ((kid, key) ∷ m) = jwk kid key ∷ jwks_of m

    -- `GetJWKS`
    unfoldable pub get_jwks : Service y → List Jwk
    get_jwks s = sort_by_kid (jwks_of s.public_keys)

    abbrev cors : Dict String
    cors =
        ("Access-Control-Allow-Origin", "*")
        ∷ ("Access-Control-Allow-Methods", "GET")
        ∷ ("Access-Control-Allow-Headers", "Content-Type")
        ∷ []

    -- The digest between quotes.
    abbrev pub etag_of : Data → String
    etag_of text = "\"" <> (digest text <> "\"")

    abbrev document_headers : String → Dict String
    document_headers etag =
        ("Content-Type", "application/json")
        ∷ ("Cache-Control", "public, max-age=300, must-revalidate")
        ∷ ("ETag", etag)
        ∷ ("X-Content-Type-Options", "nosniff")
        ∷ []

    abbrev pub document : Request → Result Data → Reply Data
    document r (err e) = empty_reply 500
    document r (ok text) =
        if str_eq (get "If-None-Match" r.headers) (etag_of text)
        then empty_reply 304
        else record { status = 200; headers = document_headers (etag_of text); body = some text }

    -- `JWKSHandler.ServeHTTP`
    unfoldable pub serve_jwks : Request → Service y → Reply Data
    serve_jwks r s = with_headers cors (
        if str_eq r.method "OPTIONS"
        then empty_reply 200
        else if str_eq r.method "GET"
        then document r (marshal (get_jwks s))
        else empty_reply 405)
