-- ===== src/Services/Jwks/State.antt =====
-- The shared JWKS state of internal/core/ports/jwks.go, and purgeState of jwks_service.go. A map
-- that may be nil is an `Option`. `time.Parse` with RFC 3339 and `sort.Slice` (whose order of
-- equal times is not fixed) are parameters; a reading of the clock is an argument.
use nexora_core.Prelude.{
  String, Bool, true, false, not, ◌||◌, Option, none, some, List, [], ◌∷◌, Dict, contains, lookup,
  length, str_eq, if◌then◌else◌,
}
use nexora_core.Prelude.Int.{ℤ, pos, ltb_ℤ, leb_ℤ, time_sub}

pub record SharedJwksState : Type 0 where
  pub version : ℤ
  pub current_kid : String
  pub keys : Option (Dict String)
  pub created_at : Option (Dict String)

-- Reading a nil map: it has no entries.
abbrev pub entries : Option (Dict String) → Dict String
entries none = []
entries (some m) = m

-- `m[k]` of a map of texts
abbrev pub text_at : String → Dict String → String
text_at k m = elim (lookup k m) [ none ↦ "" | some v ↦ v ]

-- The entries that a test on the key keeps: a loop with `delete`.
unfoldable pub keep_if : (String → Bool) → Dict String → Dict String
keep_if p [] = []
keep_if p ((k, v) ∷ m) = let rest = keep_if p m in if p k then (k, v) ∷ rest else rest

pub record Item : Type 0 where
  pub k : String
  pub t : ℤ

module _ (parse_time : String → Option ℤ) (newest_first : List Item → List Item) where
  -- Is a key with that creation text too old?
  abbrev too_old : ℤ → ℤ → String → Bool
  too_old now retention created = elim (parse_time created) [
    | none ↦ false
    | some t ↦ ltb_ℤ retention (time_sub now t)
  ]

  -- The keys that the retention loop spares, by the creation times it ranges over.
  abbrev pub spared : ℤ → ℤ → String → Dict String → String → Bool
  spared now retention current created kid =
      str_eq kid current
      || elim (lookup kid created) [ none ↦ true | some c ↦ not (too_old now retention c) ]

  unfoldable pub apply_retention_purge : ℤ → ℤ → SharedJwksState → SharedJwksState
  apply_retention_purge now retention s =
      let p = spared now retention s.current_kid (entries s.created_at) in
      record s {
        keys = some (keep_if p (entries s.keys));
        created_at = some (keep_if p (entries s.created_at));
      }

  unfoldable pub items_of : Dict String → List Item
  items_of [] = []
  items_of ((kid, created) ∷ m) =
      let rest = items_of m in
      elim (parse_time created) [ none ↦ rest | some t ↦ record { k = kid; t = t } ∷ rest ]

  -- The loop that fills `keep`, a set of kids without repetition.
  unfoldable pub fill_keep : ℤ → List Item → List String → List String
  fill_keep max_keys [] keep = keep
  fill_keep max_keys (it ∷ items) keep =
      let rest = fill_keep max_keys items (if contains keep it.k then keep else it.k ∷ keep) in
      if leb_ℤ max_keys (pos (length keep)) then keep else rest

  -- The keys that the second purge keeps.
  unfoldable pub kept : ℤ → SharedJwksState → List String
  kept max_keys s =
      fill_keep max_keys (newest_first (items_of (entries s.created_at))) (s.current_kid ∷ [])

  -- The loop ranges over the keys, so a creation time without a key stays.
  abbrev pub stays : ℤ → SharedJwksState → String → Bool
  stays max_keys s kid = elim (lookup kid (entries s.keys)) [
    | none ↦ true
    | some v ↦ contains (kept max_keys s) kid
  ]

  unfoldable pub apply_max_keys_purge : ℤ → SharedJwksState → SharedJwksState
  apply_max_keys_purge max_keys s =
      if leb_ℤ max_keys (pos 0) || leb_ℤ (pos (length (entries s.keys))) max_keys
      then s
      else record s {
        keys = some (keep_if (contains (kept max_keys s)) (entries s.keys));
        created_at = some (keep_if (stays max_keys s) (entries s.created_at));
      }

  unfoldable pub purge_state : ℤ → ℤ → ℤ → SharedJwksState → SharedJwksState
  purge_state now retention max_keys s = apply_max_keys_purge max_keys (
      apply_retention_purge now retention
        (record s { keys = some (entries s.keys); created_at = some (entries s.created_at) }))
