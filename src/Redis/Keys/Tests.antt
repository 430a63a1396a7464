-- ===== src/Redis/Keys/Tests.antt =====
-- Runs of jwks_store.go with a cipher that only adds the nonce.
use Prim.Native.Char.{Char}
use nexora_core.Prelude.{
  ℕ, ◌≡◌, ◌≢◌, refl, ap, String, Bool, true, is_empty, none, some, text-ne, List, [], ◌∷◌, length,
  if◌then◌else◌, arith,
}
use nexora_core.Prelude.Int.{pos}
use nexora_core.Domain.Errors.{ok}
use nexora_core.Redis.Client.{Delivery, delivered, lost_reply}
use nexora_core.Services.Jwks.State.{SharedJwksState}
use nexora_core.Services.Jwks.Service.{
  Crypto, JwksConfig, new_service, is_recently_rotated, prepare_merged_state,
}
use nexora_core.Services.Jwks.Node.{Node, rotate_locked, sync_from_store}
use nexora_core.Redis.Keys.{
  Cipher, Laws, RedisJwksStore, KeyRedis, new_redis_jwks_store, save_state, load_state,
  try_acquire_lock, release_lock, set_nx, expire, read_state,
}
use nexora_core.Redis.Keys.RoundTrip.{as_saved, load_state-save_state}
use nexora_core.Redis.Keys.Lock.{
  none-some, update, System, Reach, start, later, acquire, time_over, lock_of,
}
use nexora_core.Redis.Keys.Exclusion.{release_lock-Reach, Reach-exclusive}
use nexora_core.Redis.Keys.Register.{
  Call, save, load, ask, leave, run, specified, implemented, view, viewed_run, run-refines,
}
use nexora_core.Redis.Keys.Sharing.{shared, sync_from_store-rotate_locked}

abbrev explode : String → List Char
explode String.[] = []
explode (String.◌∷◌ c s) = c ∷ explode s

abbrev implode : List Char → String
implode [] = String.[]
implode (c ∷ cs) = String.◌∷◌ c (implode cs)

implode-explode : (s : String) → implode (explode s) ≡ s
implode-explode String.[] = refl
implode-explode (String.◌∷◌ c s) = ap (String.◌∷◌ c) (implode-explode s)

explode-implode : (cs : List Char) → explode (implode cs) ≡ cs
explode-implode [] = refl
explode-implode (c ∷ cs) = ap (λ (ds : List Char). c ∷ ds) (explode-implode cs)

abbrev cipher : Cipher
cipher = record {
  Byte = Char;
  Data = SharedJwksState;
  to_bytes = explode;
  of_bytes = implode;
  nonce_size = 2;
  seal = λ key nonce text. text;
  unseal = λ key nonce body. ok body;
  encode = implode;
  decode = explode;
  marshal = λ s. ok s;
  unmarshal = λ s. ok s;
}

laws : Laws cipher
laws = record {
  of_bytes-to_bytes = implode-explode;
  decode-encode = explode-implode;
  unseal-seal = λ key nonce text size. refl;
  unmarshal-marshal = λ s. (s, refl, refl);
}

abbrev nonces : String → List Char
nonces kid = explode "nn"

sizes : (kid : String) → length (nonces kid) ≡ 2
sizes kid = refl

abbrev store : RedisJwksStore cipher
store = record { state_key = "nexora:jwks:state"; encryption_key = explode "0123456789abcdef" }

new_redis_jwks_store-ok :
    new_redis_jwks_store cipher true "nexora:jwks:state" "0123456789abcdef" ≡ ok store
unfolding new_redis_jwks_store
new_redis_jwks_store-ok = refl

abbrev state : SharedJwksState
state = record {
  version = pos 1;
  current_kid = "c";
  keys = some (("", "lost") ∷ ("c", "kc") ∷ []);
  created_at = none;
}

abbrev nothing : KeyRedis cipher
nothing = record { states = []; locks = [] }

abbrev filled : KeyRedis cipher
filled = record { states = ("nexora:jwks:state", state) ∷ []; locks = [] }

load_state-save_state_example :
    let saved = save_state cipher store (λ kid. ok (nonces kid)) delivered state nothing in
    (saved.0 ≡ ok tt)
    × (load_state cipher store delivered saved.1 ≡ (ok (some (as_saved state)), saved.1))
load_state-save_state_example = load_state-save_state cipher laws nonces sizes store state nothing

run-refines_example :
    let cs : List (Delivery × Call) =
      (delivered, save state)
      ∷ (lost_reply "eof", ask "t")
      ∷ (delivered, load)
      ∷ (delivered, leave "u")
      ∷ [] in
    viewed_run cipher store "lock"
      (λ n. nonces)
      laws
      (λ n. sizes)
      (run (implemented cipher store "lock" (λ n. nonces)) 0 cs filled)
    ≡ run (λ n. specified) 0 cs (view cipher store "lock" (λ n. nonces) filled)
run-refines_example =
    run-refines cipher store "lock" (λ n. nonces) laws (λ n. sizes) 0
      ((delivered, save state)
        ∷ (lost_reply "eof", ask "t")
        ∷ (delivered, load)
        ∷ (delivered, leave "u")
        ∷ [])
      filled

-- Instance 0 gets the lock.
abbrev one_holds : System cipher "lock"
one_holds = record {
  world = (try_acquire_lock cipher "lock" "a" delivered nothing).1;
  holder = update (λ i. none) 0 (some "a");
}

one_holds-Reach : {timed : Bool} → Reach cipher "lock" timed nothing one_holds
unfolding try_acquire_lock set_nx
one_holds-Reach = later start (acquire 0 "a" delivered (λ j. none-some "a") refl)

-- Its time is over and instance 1 gets the lock.
abbrev late : System cipher "lock"
late = record {
  world = (try_acquire_lock cipher "lock" "b" delivered nothing).1;
  holder = update one_holds.holder 1 (some "b");
}

other_token : (j : ℕ) → one_holds.holder j ≢ some "b"
other_token j =
    let ne : "a" ≢ "b" = text-ne "a" "b" refl in
    let none_b : none ≢ some "b" = none-some "b" in ground (arith, ne, none_b)

late-Reach : Reach cipher "lock" true nothing late
unfolding try_acquire_lock set_nx expire
late-Reach =
    later (later one_holds-Reach (time_over refl)) (acquire 1 "b" delivered other_token refl)

release_lock-Reach_example :
    lock_of cipher "lock" (release_lock cipher "lock" "a" (lost_reply "eof") late.world).1
    ≡ some "b"
unfolding try_acquire_lock set_nx
release_lock-Reach_example =
    release_lock-Reach cipher "lock" late-Reach 0 1 "a" "b" (lost_reply "eof") (ground arith) refl
      refl refl

Reach-exclusive_example : ◌≡◌ {A = ℕ} 0 0
Reach-exclusive_example = Reach-exclusive cipher "lock" one_holds-Reach 0 0 "a" "a" refl refl

abbrev crypto : Crypto
crypto = record {
  PrivateKey = String;
  PublicKey = String;
  public = λ k. k;
  encode = λ k. ok k;
  decode = λ t. if is_empty t then none else some t;
  parse_time = λ t. none;
  format_time = λ t. "now";
  newest_first = λ items. items;
}

abbrev cfg : JwksConfig
cfg = record { rotation_ttl = pos 10; retention_period = pos 50; max_keys = pos 2 }

abbrev node : Node crypto (shared crypto cfg cipher laws store "lock" nonces sizes "t") cfg
node = record { world = nothing; service = new_service crypto }

sync_from_store-rotate_locked_example :
    let one = shared crypto cfg cipher laws store "lock" nonces sizes "t" in
    let two = shared crypto cfg cipher laws store "lock" nonces sizes "u" in
    let after = (rotate_locked crypto one cfg (ok ("new", "k")) (pos 1) (pos 2) (pos 3) node).1 in
    let m : Node crypto two cfg = record { world = after.world; service = new_service crypto } in
    let s = (sync_from_store crypto two cfg m).1.service in
    (s.current ≡ some "new") × (s.current_kid ≡ "k")
unfolding load_state read_state is_recently_rotated prepare_merged_state
sync_from_store-rotate_locked_example =
    sync_from_store-rotate_locked crypto cfg cipher laws store "lock" nonces sizes "new" "k" "new"
      "t" "u" (pos 1) (pos 2) (pos 3) 2 node none (new_service crypto) refl refl refl refl refl refl
      (omega arith) tt
