-- ===== src/Redis/Cache/Laws.antt =====
-- What the caches of cache.go, cache_service.go and nas_cache.go give back.
use text.Mathlib.TextLemmas.{append_cancel_left}
use nexora_core.Prelude.{
  ◌≡◌, ◌≢◌, refl, sym, ap, ◌∙◌, String, Bool, true, false, is_empty, Option, some, Dict, lookup,
  insert, erase, lookup-insert, lookup-insert_same, lookup-erase_same, str_eq, eq_iff,
  if◌then◌else◌, arith,
}
use nexora_core.Domain.Errors.{Result, ok, err}
use nexora_core.Domain.Nas.{Nas}
use nexora_core.Redis.Client.{delivered, lost_request, lift}
use nexora_core.Redis.Cache.{
  TextRedis, set, get, found_or_nil, blacklist_key, blacklist_token, is_token_blacklisted, is_found,
  NasCodec, nas_key, err_nas_not_found, set_nas, read_nas, get_nas, delete_nas,
}

lift-result : {S A : Type 0} (r : Result A) (s : S) → (lift r s).0 ≡ r
lift-result (ok a) s = refl
lift-result (err e) s = refl

-- A token that was put on the list is found there, and the list changes for no other token; a check
-- whose round trip fails says that a token is not on the list.
is_token_blacklisted-blacklist_token :
    (jti other : String) (m : String) (w : TextRedis)
    → other ≢ jti
    → let w' = (blacklist_token jti delivered w).1 in
      ((is_token_blacklisted jti delivered w').0 ≡ ok true)
      × ((is_token_blacklisted other delivered w').0 ≡ (is_token_blacklisted other delivered w).0)
      × ((is_token_blacklisted jti (lost_request m) w').0 ≡ ok false)
unfolding is_token_blacklisted blacklist_token set get
is_token_blacklisted-blacklist_token jti other m w ne =
    let differ : str_eq (blacklist_key jti) (blacklist_key other) ≡ false =
      let e = append_cancel_left "blacklist:" jti other in
      ground (arith, eq_iff (blacklist_key jti) (blacklist_key other), λ (h : _). ne (sym (e h))) in
    let found = λ (r : Result String). ok (is_found r) in
    let answer = λ (o : Option String). found (found_or_nil o) in
    let shown : (k : String) (u : TextRedis)
        → found (lift (found_or_nil (lookup k u)) u).0 ≡ answer (lookup k u) =
      λ k u. ap found (lift-result (found_or_nil (lookup k u)) u) in
    let w' : TextRedis = insert (blacklist_key jti) "1" w in
    (
      shown (blacklist_key jti) w' ∙ ap answer (lookup-insert_same (blacklist_key jti) "1" w),
      shown (blacklist_key other) w'
          ∙ ap answer (
              lookup-insert (blacklist_key jti) (blacklist_key other) "1" w
              ∙ ap (λ (b : Bool). if b then some "1" else lookup (blacklist_key other) w) differ)
          ∙ sym (shown (blacklist_key other) w),
      refl,
    )

module _ (c : NasCodec) where
  -- A NAS that was stored is found under its address, and after a deletion it is not: it has an id,
  -- and its JSON reads back.
  get_nas-set_nas :
      (nas : Nas) (text : c.Data) (w : Dict c.Data)
      → c.marshal nas ≡ ok text
      → c.unmarshal text ≡ ok nas
      → is_empty nas.id ≡ false
      → let ip = c.show_ip nas.ip_address in
        let (r, w') = set_nas c (some nas) delivered w in
        (r ≡ ok tt)
        × ((get_nas c ip delivered w').0 ≡ ok nas)
        × ((get_nas c ip delivered (delete_nas c ip delivered w').1).0 ≡ err err_nas_not_found)
  unfolding get_nas set_nas delete_nas read_nas
  get_nas-set_nas nas text w written back named =
      let ip = c.show_ip nas.ip_address in
      let key = nas_key ip in
      let w' : Dict c.Data = insert key text w in
      let answer = λ (o : Option c.Data). read_nas c ip (ok o) in
      let shown : (u : Dict c.Data) → (get_nas c ip delivered u).0 ≡ answer (lookup key u) =
        λ u. lift-result (answer (lookup key u)) u in
      let same : answer (some text) ≡ ok nas = rw (read_nas, back, named) refl in
      let stored : set_nas c (some nas) delivered w ≡ (ok tt, w') = rw (set_nas, written) refl in
      let after = λ (p : Result (Unit {0}) × Dict c.Data). p.1 in
      (
        ap (λ (p : Result (Unit {0}) × Dict c.Data). p.0) stored,
        shown (after (set_nas c (some nas) delivered w))
            ∙ ap (λ (p : Result (Unit {0}) × Dict c.Data). answer (lookup key p.1)) stored
            ∙ ap answer (lookup-insert_same key text w)
            ∙ same,
        shown (erase key (after (set_nas c (some nas) delivered w)))
            ∙ ap answer (lookup-erase_same key (after (set_nas c (some nas) delivered w))),
      )
