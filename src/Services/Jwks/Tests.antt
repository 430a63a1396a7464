-- ===== src/Services/Jwks/Tests.antt =====
-- Runs of jwks_service.go with texts for keys and a store that is one variable.
use nexora_core.Prelude.{
  ◌≡◌, false, ◌≤◌, String, true, Option, some, none, List, [], ◌∷◌, lookup, length, refl, arith,
  is_empty, if◌then◌else◌,
}
use nexora_core.Prelude.Int.{ℤ, pos, time_sub}
use nexora_core.Domain.Errors.{ok}
use nexora_core.Services.Jwks.State.{SharedJwksState, entries, Item, purge_state}
use nexora_core.Services.Jwks.Purge.{purge_state-bounded}
use nexora_core.Services.Jwks.Fresh.{rotate_locked-installs}
use nexora_core.Services.Jwks.Service.{
  is_recently_rotated, prepare_merged_state, Crypto, JwksStore, JwksConfig,
}
use nexora_core.Services.Jwks.Node.{rotate_locked, Node, tick}
use nexora_core.Services.Jwks.Loading.{Serves}
use nexora_core.Services.Jwks.Rotation.{tick-Serves}

abbrev parse : String → Option ℤ
parse t = if is_empty t then none else some (pos 100)

abbrev newest : List Item → List Item
newest items = items

abbrev crypto : Crypto
crypto = record {
  PrivateKey = String;
  PublicKey = String;
  public = λ k. k;
  encode = λ k. ok k;
  decode = λ t. if is_empty t then none else some t;
  parse_time = parse;
  format_time = λ t. "now";
  newest_first = newest;
}

abbrev store : JwksStore
store = record {
  World = Option SharedJwksState;
  try_acquire_lock = λ w. (ok (true, "token"), w);
  release_lock = λ t w. (ok tt, w);
  load_state = λ w. (ok w, w);
  save_state = λ s w. (ok tt, some s);
}

abbrev cfg : JwksConfig
cfg = record { rotation_ttl = pos 10; retention_period = pos 50; max_keys = pos 2 }

abbrev state : SharedJwksState
state = record {
  version = pos 1;
  current_kid = "c";
  keys = some (("a", "ka") ∷ ("b", "kb") ∷ ("c", "kc") ∷ []);
  created_at = some (("a", "t") ∷ ("b", "t") ∷ ("c", "t") ∷ []);
}

abbrev two : SharedJwksState
two = record state { keys = some (("a", "ka") ∷ ("c", "kc") ∷ []) }

abbrev node : Node crypto store cfg
node = record {
  world = some state;
  service = record {
    current = some "kc";
    current_kid = "c";
    public_keys = ("c", "kc") ∷ [];
    created_at = [];
  };
}

purge_state-bounded_example :
    let s' = purge_state parse newest (pos 120) (pos 50) (pos 2) state in
    (length (entries s'.keys) ≤ 2)
    × (lookup "c" (entries s'.keys) ≡ some "kc")
    × (s'.current_kid ≡ "c")
purge_state-bounded_example =
    purge_state-bounded parse newest (pos 120) (pos 50) 2 state (omega arith)
      (refl, (refl, (refl, tt)))

node-Serves : Serves crypto node.service
unfolding Serves
node-Serves = refl

tick-Serves_example :
    Serves crypto
      (tick crypto store cfg
        (ok ("kd", "d"))
        (pos 300)
        (pos 301)
        (pos 302)
        (pos 303)
        node).1.service
tick-Serves_example =
    tick-Serves crypto store cfg (ok ("kd", "d")) (pos 300) (pos 301) (pos 302) (pos 303) node
      node-Serves

not_recent : is_recently_rotated crypto cfg (pos 300) (some state) ≡ false
unfolding is_recently_rotated time_sub
not_recent = refl

rotate_locked-installs_example :
    let s =
      (rotate_locked crypto store cfg
        (ok ("kd", "d"))
        (pos 300)
        (pos 301)
        (pos 302)
        node).1.service in
    (s.current ≡ some "kd") × (s.current_kid ≡ "d")
unfolding prepare_merged_state
rotate_locked-installs_example =
    rotate_locked-installs crypto store cfg "kd" "d" "kd" (pos 300) (pos 301) (pos 302) 2 node
      (some state) refl not_recent refl refl refl refl (omega arith) (refl, (refl, (refl, tt))) refl
