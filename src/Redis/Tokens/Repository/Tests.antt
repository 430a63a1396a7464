-- ===== src/Redis/Tokens/Repository/Tests.antt =====
-- Runs of refresh_token_repository.go on a store that is two maps: from keys to documents, and from
-- keys to sets.
use nexora_core.Prelude.{
  ◌≡◌, String, false, ◌||◌, Option, some, none, List, [], ◌∷◌, Dict, lookup, insert, erase,
  contains, lookup-insert, lookup-insert_same, lookup-erase, str_eq, eq_iff, text-eq, refl, arith,
  ap, subst, ◌∙◌, if◌then◌else◌, Bool-cases, inl, inr,
}
use nexora_core.Prelude.Int.{pos, ◌+ℤ◌, time_sub}
use nexora_core.Domain.Errors.{ok, err, domain, err_replay_detected}
use nexora_core.Redis.Client.{delivered}
use nexora_core.Redis.Tokens.Document.{null, Document, RefreshToken}
use nexora_core.Redis.Tokens.Script.{TokenRedis, TokenLaws}
use nexora_core.Redis.Tokens.Repository.{save, rotate, get_by_hash}
use nexora_core.Redis.Tokens.Repository.Families.{save-rotate_kept}

abbrev Memory : Type 0
Memory = Dict Document × Dict (List String)

abbrev or_empty : Option (List String) → List String
or_empty none = []
or_empty (some ms) = ms

abbrev set_at : String → Dict (List String) → List String
set_at k m = or_empty (lookup k m)

abbrev erase_all : {V : Type 0} → List String → Dict V → Dict V
erase_all [] m = m
erase_all (k ∷ ks) m = erase k (erase_all ks m)

abbrev pub memory : TokenRedis
memory = record {
  Store = Memory;
  get = λ k s. lookup k s.0;
  members = λ k s. set_at k s.1;
  set = λ k d ttl s. (insert k d s.0, s.1);
  sadd = λ k m s. (s.0, insert k (m ∷ set_at k s.1) s.1);
  pexpire = λ k ttl s. s;
  del = λ ks s. (erase_all ks s.0, erase_all ks s.1);
}

lookup-erase_all :
    {V : Type 0} (ks : List String) (j : String) (m : Dict V)
    → lookup j (erase_all ks m) ≡ (if contains ks j then none else lookup j m)
lookup-erase_all [] j m = refl
lookup-erase_all (k ∷ ks) j m =
    ground (arith, lookup-erase k j (erase_all ks m), lookup-erase_all ks j m)

missing :
    (k j : String) (s : Dict (List String)) → str_eq k j ≡ false → lookup j (erase k s) ≡ lookup j s
missing k j s e = ground (arith, lookup-erase k j s, e)

contains-sadd :
    (k m j x : String) (s : Dict (List String))
    → contains (set_at j (insert k (m ∷ set_at k s) s)) x
      ≡ (if str_eq k j then str_eq m x || contains (set_at j s) x else contains (set_at j s) x)
contains-sadd k m j x s = elim (Bool-cases (str_eq k j)) [
  | inl e ↦
      subst
        (λ (i : String).
          contains (set_at i (insert k (m ∷ set_at k s) s)) x
          ≡ (if str_eq k i then str_eq m x || contains (set_at i s) x else contains (set_at i s) x))
        (text-eq k j e)
        (ap (λ (o : Option (List String)). contains (or_empty o) x)
            (lookup-insert_same k (m ∷ set_at k s) s)
          ∙ rw ((eq_iff k k).1 refl) (ground arith))
  | inr e ↦ rw e (ap (λ (o : Option (List String)). contains (or_empty o) x) (missing k j s e))
]

pub memory_laws : TokenLaws memory
memory_laws = record {
  get_set = λ k j d ttl s h. lookup-insert k j d s.0;
  get_sadd = λ k m j s. refl;
  get_pexpire = λ k j ttl s h. refl;
  get_del = λ ks j s. lookup-erase_all ks j s.0;
  members_set = λ k j d ttl s h. refl;
  members_sadd = λ k m j x s. contains-sadd k m j x s.1;
  members_pexpire = λ k j x ttl s h. refl;
}

abbrev pub hash : String → String
hash raw = raw

abbrev token : RefreshToken
token = record {
  id = "a";
  family_id = "f";
  user_id = "u";
  tenant_id = "t";
  token_hash = "";
  token_raw = "a";
  parent_id = none;
  expires_at = pos 604800000000000;
  created_at = pos 0;
  used_at = none;
  revoked_at = none;
}

save-rotate_kept_example :
    let s₁ = (save memory (some null) hash delivered (pos 0) token ([], [])).1 in
    let (answer, s₂) = rotate memory (some null) hash delivered "b" (pos 6) (pos 7) "a" s₁ in
    (answer ≡ err (domain err_replay_detected))
    × (get_by_hash memory (some null) hash delivered "a" s₂ ≡ (ok token, s₂))
unfolding time_sub ◌+ℤ◌
save-rotate_kept_example =
    save-rotate_kept memory memory_laws (some null) hash (pos 0) token "b" (pos 6) (pos 7) ([], [])
      refl (omega arith) refl refl
