-- ===== src/Web/Guards/Access.antt =====
-- Who gets past RequireAuth and RequireRole.
use nexora_core.Prelude.{
  ◌≡◌, ◌⊎◌, inl, inr, refl, ◌∙◌, String, true, is_empty, Option, none, some, List, contains,
  Bool-cases,
}
use nexora_core.Domain.Errors.{Result, ok, err}
use nexora_core.Redis.Client.{Action}
use nexora_core.Services.Auth.{UserClaims}
use nexora_core.Web.Http.{Request, get, Handler, json_error}
use nexora_core.Web.Guards.{
  after_prefix, with_identity, authenticated, with_bearer, require_auth, require_role,
}

module _ {S : Type 0} (validate : String → Action S UserClaims) where
  -- The token that a request carries, and the claims that its validation gives.
  pub record Login (r : Request) (s : S) : Type 0 where
    pub token : String
    pub claims : UserClaims
    pub carried : after_prefix "Bearer " (get "Authorization" r.headers) ≡ some token
    pub valid : (validate token s).0 ≡ ok claims

  abbrev pub after : {r : Request} {s : S} → Login r s → S
  after {s = s} l = (validate l.token s).1

module _ {S B : Type 0} (validate : String → Action S UserClaims) where
  authenticated-cases :
      (next : Handler S B) (r : Request) (p : Result UserClaims × S)
      → (authenticated validate next r p ≡ json_error 401 p.1)
        ⊎ ((claims : UserClaims) × (p.0 ≡ ok claims)
            × (authenticated validate next r p ≡ next (with_identity claims r) p.1))
  authenticated-cases next r (err e, s) = inl refl
  authenticated-cases next r (ok claims, s) = inr (claims, refl, refl)

  with_bearer-cases :
      (next : Handler S B) (r : Request) (s : S) (o : Option String)
      → ((t : S) × (with_bearer validate next r s o ≡ json_error 401 t))
        ⊎ ((token : String) × (claims : UserClaims) × (o ≡ some token)
            × ((validate token s).0 ≡ ok claims)
            × (with_bearer validate next r s o
                ≡ next (with_identity claims r) (validate token s).1))
  with_bearer-cases next r s none = inl (s, refl)
  with_bearer-cases next r s (some token) = elim (authenticated-cases next r (validate token s)) [
    | inl e ↦ inl ((validate token s).1, e)
    | inr (claims, v, e) ↦ inr (token, claims, refl, v, e)
  ]

  -- A request is answered with 401, or it carries a valid access token and the next handler runs
  -- with the identity of that token.
  require_auth-cases :
      (next : Handler S B) (r : Request) (s : S)
      → ((t : S) × (require_auth validate next r s ≡ json_error 401 t))
        ⊎ ((l : Login validate r s) × (require_auth validate next r s
              ≡ next (with_identity l.claims r) (after validate l)))
  unfolding require_auth
  require_auth-cases next r s =
      let header = get "Authorization" r.headers in
      elim (Bool-cases (is_empty header)) [
        | inl e ↦ inl (s, rw (require_auth, e) refl)
        | inr e ↦ elim (with_bearer-cases next r s (after_prefix "Bearer " header)) [
          | inl (t, same) ↦ inl (t, rw (require_auth, e) same)
          | inr (token, claims, o, v, same) ↦ inr (
            record { token = token; claims = claims; carried = o; valid = v },
            rw (require_auth, e) same,
          )
        ]
      ]

  -- A role that is not in the list is answered with 403.
  require_role-cases :
      (allowed : List String) (claims : UserClaims) (next : Handler S B) (r : Request) (s : S)
      → (require_role allowed next (with_identity claims r) s ≡ json_error 403 s)
        ⊎ ((contains allowed claims.role ≡ true)
            × (require_role allowed next (with_identity claims r) s
                ≡ next (with_identity claims r) s))
  unfolding require_role
  require_role-cases allowed claims next r s = elim (Bool-cases (contains allowed claims.role)) [
    | inl e ↦ inr (e, rw (require_role, e) refl)
    | inr e ↦ inl (rw (require_role, e) refl)
  ]

  -- Behind both guards the next handler runs only for a valid access token whose role is in the list,
  -- with the identity of that token; every other request is answered with 401 or 403, without a body.
  pub require_auth-require_role :
      (allowed : List String) (next : Handler S B) (r : Request) (s : S)
      → let p = require_auth validate (require_role allowed next) r s in
        ((t : S) × ((p ≡ json_error 401 t) ⊎ (p ≡ json_error 403 t)))
        ⊎ ((l : Login validate r s) × (contains allowed l.claims.role ≡ true)
            × (p ≡ next (with_identity l.claims r) (after validate l)))
  require_auth-require_role allowed next r s =
      elim (require_auth-cases (require_role allowed next) r s) [
        | inl (t, e) ↦ inl (t, inl e)
        | inr (l, e) ↦ elim (require_role-cases allowed l.claims next r (after validate l)) [
          | inl e' ↦ inl (after validate l, inr (e ∙ e'))
          | inr (role, e') ↦ inr (l, role, e ∙ e')
        ]
      ]
