-- ===== src/Redis/Tokens/Script.antt =====
-- internal/adapters/secondary/redis/scripts/rotate_token.lua, run atomically by the server. The
-- commands of the server are a parameter, and so is what cjson.decode makes of a JSON null
-- (`none` is Lua's nil; cjson documents a value of its own, which is not nil). The times to live are
-- arguments of the commands; that the server removes a key later is no step of the model.
use nexora_core.Prelude.{
  ℕ, suc, ◌*◌, String, ◌<>◌, ◌≡◌, false, ◌||◌, Option, none, some, List, [], ◌∷◌, contains, lookup,
  insert, erase, str_eq, if◌then◌else◌,
}
use nexora_core.Prelude.Int.{ℤ, pos, negsuc, sub_ℕ, ◌<ℤ◌}
use nexora_core.Redis.Tokens.Document.{Json, null, text, time, unix, Document}

-- The commands on token documents and on the sets of their keys. Times to live are nanoseconds.
pub record TokenRedis : Type 1 where
  pub Store : Type 0
  pub get : String → Store → Option Document
  pub members : String → Store → List String
  pub set : String → Document → ℤ → Store → Store
  pub sadd : String → String → Store → Store
  pub pexpire : String → ℤ → Store → Store
  pub del : List String → Store → Store

-- What Redis documents of them, for positive times to live.
pub record TokenLaws (r : TokenRedis) : Type 0 where
  pub get_set :
      (k j : String) (d : Document) (ttl : ℤ) (s : r.Store)
      → pos 0 <ℤ ttl
      → r.get j (r.set k d ttl s) ≡ (if str_eq k j then some d else r.get j s)
  pub get_sadd : (k m j : String) (s : r.Store) → r.get j (r.sadd k m s) ≡ r.get j s
  pub get_pexpire :
      (k j : String) (ttl : ℤ) (s : r.Store)
      → pos 0 <ℤ ttl
      → r.get j (r.pexpire k ttl s) ≡ r.get j s
  pub get_del :
      (ks : List String) (j : String) (s : r.Store)
      → r.get j (r.del ks s) ≡ (if contains ks j then none else r.get j s)
  pub members_set :
      (k j : String) (d : Document) (ttl : ℤ) (s : r.Store)
      → str_eq k j ≡ false
      → r.members j (r.set k d ttl s) ≡ r.members j s
  pub members_sadd :
      (k m j x : String) (s : r.Store)
      → contains (r.members j (r.sadd k m s)) x ≡ (
          if str_eq k j
          then str_eq m x || contains (r.members j s) x
          else contains (r.members j s) x)
  pub members_pexpire :
      (k j x : String) (ttl : ℤ) (s : r.Store)
      → pos 0 <ℤ ttl
      → contains (r.members j (r.pexpire k ttl s)) x ≡ contains (r.members j s) x

pub data Reply : Type 0 where
  reply : Document → Reply
  error_reply : String → Reply

-- `t.a or t.b` on a decoded table, with what a JSON null decodes to.
abbrev pub decoded : Option Json → Option Json → Option Json
decoded decode_null none = none
decoded decode_null (some null) = decode_null
decoded decode_null (some v) = some v

abbrev pub lua_or : Option Json → Option Json → Option Json
lua_or none b = b
lua_or (some v) b = some v

-- `t.f = v`
abbrev pub assign : String → Option Json → Document → Document
assign f none d = erase f d
assign f (some v) d = insert f v d

-- `tostring` of a family id, which the repository writes as a text.
abbrev pub to_string : Json → String
to_string (text t) = t
to_string null = "userdata: NULL"
to_string (time t) = ""
to_string (unix t) = ""

abbrev pub millisecond : ℕ
millisecond = 1000000

-- A time to live given in milliseconds.
abbrev pub px : ℤ → ℤ
px (pos n) = pos (n * millisecond)
px (negsuc n) = sub_ℕ 0 (suc n * millisecond)

module _ (r : TokenRedis) (decode_null : Option Json) where
  open r use {Store, get, members, set, sadd, pexpire, del}

  -- A field under either of its two spellings.
  abbrev pub field : String → String → Document → Option Json
  field a b d = lua_or (decoded decode_null (lookup a d)) (decoded decode_null (lookup b d))

  -- DEL of the members, left out where there is none.
  unfoldable pub del_members : List String → Store → Store
  del_members [] s = s
  del_members (m ∷ ms) s = del (m ∷ ms) s

  -- A token used twice: every member of its family goes, and the family.
  unfoldable pub revoke_members : String → Store → Store
  revoke_members family_key s = del (family_key ∷ []) (del_members (members family_key s) s)

  -- The new token: the partial one, with the identity of the old one.
  unfoldable pub merged : Json → Document → Document → Document
  merged family old new =
      assign "TenantID" (field "TenantID" "tenant_id" old)
        (assign "UserID" (field "UserID" "user_id" old) (insert "FamilyID" family new))

  unfoldable pub rotate_live :
      String → String → Json → Document → Document → ℤ → ℤ → Store → Reply × Store
  rotate_live old_key new_key family old new ttl now s =
      let family_key = "rt:family:" <> to_string family in
      let final = merged family old new in
      let s₁ = set old_key (insert "UsedAt" (unix now) old) (pos (60000 * millisecond)) s in
      (
        reply final,
        pexpire family_key (px ttl) (sadd family_key new_key (set new_key final (px ttl) s₁)),
      )

  unfoldable pub rotate_found :
      String
      → String
      → Option Json
      → Option Json
      → Document
      → Document
      → ℤ
      → ℤ
      → Store
      → Reply × Store
  rotate_found old_key new_key none used old new ttl now s =
      (error_reply "INTERNAL_ERROR: Missing FamilyID", s)
  rotate_found old_key new_key (some family) (some used) old new ttl now s =
      (error_reply "REPLAY_DETECTED", revoke_members ("rt:family:" <> to_string family) s)
  rotate_found old_key new_key (some family) none old new ttl now s =
      rotate_live old_key new_key family old new ttl now s

  unfoldable pub rotate_script : String → String → Document → ℤ → ℤ → Store → Reply × Store
  rotate_script old_key new_key new ttl now s = elim (get old_key s) [
    | none ↦ (error_reply "TOKEN_NOT_FOUND", s)
    | some old ↦
        rotate_found old_key new_key (field "FamilyID" "family_id" old)
          (field "UsedAt" "used_at" old) old new ttl now s
  ]
