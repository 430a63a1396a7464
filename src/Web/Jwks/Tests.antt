-- ===== src/Web/Jwks/Tests.antt =====
-- Requests to the JWKS endpoint with texts for keys.
use nexora_core.Prelude.{◌≡◌, refl, String, is_empty, none, some, List, [], ◌∷◌, if◌then◌else◌}
use nexora_core.Domain.Errors.{ok}
use nexora_core.Services.Jwks.Service.{Crypto, Service}
use nexora_core.Web.Http.{Request, background}
use nexora_core.Web.Jwks.{Jwk, Publisher, get_jwks, jwks_of, serve_jwks}

abbrev crypto : Crypto
crypto = record {
  PrivateKey = String;
  PublicKey = String;
  public = λ k. k;
  encode = λ k. ok k;
  decode = λ t. if is_empty t then none else some t;
  parse_time = λ t. none;
  format_time = λ t. "now";
  newest_first = λ items. items;
}

abbrev publisher : Publisher crypto
publisher = record {
  Data = List Jwk;
  encode_rsa_key_params = λ k. (k, "AQAB");
  sort_by_kid = λ ks. ks;
  marshal = λ ks. ok ks;
  digest = λ ks. "00";
}

abbrev service : Service crypto
service = record {
  current = some "kc";
  current_kid = "c";
  public_keys = ("c", "kc") ∷ [];
  created_at = [];
}

abbrev again : Request
again = record {
  method = "GET";
  path = "/.well-known/jwks.json";
  headers = ("If-None-Match", "\"00\"") ∷ [];
  query = [];
  remote_addr = "1.2.3.4:5";
  context = background;
}

not_modified : (serve_jwks crypto publisher again service).status ≡ 304
unfolding serve_jwks get_jwks jwks_of
not_modified = refl
