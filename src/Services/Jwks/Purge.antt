-- ===== src/Services/Jwks/Purge.antt =====
-- What purgeState of jwks_service.go keeps.
use nexora_core.Prelude.{
  ℕ, ◌+◌, ◌≤◌, ◌≡◌, String, Bool, true, false, ◌||◌, Option, none, some, List, [], ◌∷◌, Dict,
  contains, lookup, length, str_eq, eq_iff, text-eq, if◌then◌else◌, arith, refl, Bool-cases, inl,
  inr, ◌∙◌, sym, subst, str_eq_comm,
}
use nexora_core.Prelude.Int.{ℤ, pos, ◌≤ℤ◌, leb_ℤ, ltb_ℤ, time_sub}
use nexora_core.Services.Jwks.State.{
  SharedJwksState, entries, keep_if, Item, spared, apply_retention_purge, fill_keep, kept, items_of,
  apply_max_keys_purge, purge_state,
}

lookup-keep_if :
    (p : String → Bool) (k : String) (m : Dict String)
    → p k ≡ true
    → lookup k (keep_if p m) ≡ lookup k m
unfolding keep_if
lookup-keep_if p k [] h = refl
lookup-keep_if p k ((j, v) ∷ m) h = elim (Bool-cases (str_eq j k)) [
  | inl e ↦
      let here : p j ≡ true = subst (λ (x : String). p x ≡ true) (sym (text-eq j k e)) h in
      rw (here, e)
  | inr e ↦ elim (Bool-cases (p j)) [
    | inl q ↦ rw (q, e) (lookup-keep_if p k m h)
    | inr q ↦ rw (q, e) (lookup-keep_if p k m h)
  ]
]

-- The keys of a Go map: none twice.
abbrev pub Distinct : Dict String → Type 0
Distinct [] = Unit
Distinct ((k, v) ∷ m) = (lookup k m ≡ none) × Distinct m

remove : String → List String → List String
remove k [] = []
remove k (j ∷ js) = if str_eq j k then js else j ∷ remove k js

length-remove :
    (k : String) (js : List String) → contains js k ≡ true → length (remove k js) + 1 ≡ length js
unfolding remove
length-remove k [] h = cc
length-remove k (j ∷ js) h = ground (arith, length-remove k js)

contains-remove :
    (k i : String) (js : List String)
    → str_eq k i ≡ false
    → contains js i ≡ true
    → contains (remove k js) i ≡ true
unfolding remove
contains-remove k i [] ne h = cc
contains-remove k i (j ∷ js) ne h =
    ground (arith, contains-remove k i js, eq_iff j k, eq_iff j i, eq_iff k i)

-- Entries with distinct keys of a list are at most as many as the list.
abbrev Within : List String → Dict String → Type 0
Within js [] = Unit
Within js ((k, v) ∷ m) = (contains js k ≡ true) × Within js m

Within-remove :
    (k : String) (js : List String) (m : Dict String)
    → lookup k m ≡ none
    → Within js m
    → Within (remove k js) m
Within-remove k js [] ne w = tt
Within-remove k js ((i, v) ∷ m) ne w = elim (Bool-cases (str_eq i k)) [
  | inl e ↦ absurd (ground (arith, e))
  | inr e ↦ (
    contains-remove k i js (str_eq_comm k i ∙ e) w.0,
    Within-remove k js m (ground (arith, e)) w.1,
  )
]

length-Within :
    (js : List String) (m : Dict String) → Distinct m → Within js m → length m ≤ length js
length-Within js [] d w = omega arith
length-Within js ((k, v) ∷ m) d w = omega (
  arith,
  length-remove k js w.0,
  length-Within (remove k js) m d.1 (Within-remove k js m d.0 w.1),
)

keep_if-Distinct : (p : String → Bool) (m : Dict String) → Distinct m → Distinct (keep_if p m)
unfolding keep_if
keep_if-Distinct p [] d = tt
keep_if-Distinct p ((k, v) ∷ m) d = elim (Bool-cases (p k)) [
  | inl h ↦ rw h (lookup-keep_if p k m h ∙ d.0, keep_if-Distinct p m d.1)
  | inr h ↦ rw h (keep_if-Distinct p m d.1)
]

keep_if-Within : (js : List String) (m : Dict String) → Within js (keep_if (contains js) m)
unfolding keep_if
keep_if-Within js [] = tt
keep_if-Within js ((k, v) ∷ m) = elim (Bool-cases (contains js k)) [
  | inl h ↦ rw h (h, keep_if-Within js m)
  | inr h ↦ rw h (keep_if-Within js m)
]

module _ (parse_time : String → Option ℤ) (newest_first : List Item → List Item) where
  contains-fill_keep :
      (max : ℤ) (items : List Item) (keep : List String) (k : String)
      → contains keep k ≡ true
      → contains (fill_keep parse_time newest_first max items keep) k ≡ true
  unfolding fill_keep
  contains-fill_keep max [] keep k h = h
  contains-fill_keep max (it ∷ items) keep k h =
      ground
        (arith, contains-fill_keep max items (if contains keep it.k then keep else it.k ∷ keep) k)

  length-fill_keep :
      (max : ℕ) (items : List Item) (keep : List String)
      → length keep ≤ max
      → length (fill_keep parse_time newest_first (pos max) items keep) ≤ max
  unfolding fill_keep
  length-fill_keep max [] keep h = h
  length-fill_keep max (it ∷ items) keep h =
      ground (arith, length-fill_keep max items (if contains keep it.k then keep else it.k ∷ keep))

  max_keys_lem :
      (max : ℕ) (s : SharedJwksState)
      → 1 ≤ max
      → Distinct (entries s.keys)
      → let s' = apply_max_keys_purge parse_time newest_first (pos max) s in
        (length (entries s'.keys) ≤ max)
        × (lookup s.current_kid (entries s'.keys) ≡ lookup s.current_kid (entries s.keys))
        × (s'.current_kid ≡ s.current_kid)
  unfolding apply_max_keys_purge kept
  max_keys_lem max s positive d =
      let items = newest_first (items_of parse_time newest_first (entries s.created_at)) in
      let keep = kept parse_time newest_first (pos max) s in
      let self = (eq_iff s.current_kid s.current_kid).1 refl in
      elim (Bool-cases
        (leb_ℤ (pos max) (pos 0) || leb_ℤ (pos (length (entries s.keys))) (pos max))) [
          | inl few ↦ rw few (ground (arith, few), refl, refl)
          | inr many ↦ rw many (
            omega (
              arith,
              length-Within keep (keep_if (contains keep) (entries s.keys))
                  (keep_if-Distinct (contains keep) (entries s.keys) d)
                  (keep_if-Within keep (entries s.keys)),
              length-fill_keep max items (s.current_kid ∷ []) positive,
            ),
            lookup-keep_if (contains keep) s.current_kid (entries s.keys)
                (contains-fill_keep (pos max) items (s.current_kid ∷ []) s.current_kid (rw self)),
            refl,
          )
        ]

  -- A purge with a positive maximum leaves at most that many keys, whatever the ages and the order
  -- of equal times, and never touches the current key or its kid. The keys are those of a Go map,
  -- none twice.
  pub purge_state-bounded :
      (now retention : ℤ) (max : ℕ) (s : SharedJwksState)
      → 1 ≤ max
      → Distinct (entries s.keys)
      → let s' = purge_state parse_time newest_first now retention (pos max) s in
        (length (entries s'.keys) ≤ max)
        × (lookup s.current_kid (entries s'.keys) ≡ lookup s.current_kid (entries s.keys))
        × (s'.current_kid ≡ s.current_kid)
  unfolding purge_state apply_retention_purge
  purge_state-bounded now retention max s positive d =
      let cloned = record s {
        keys = some (entries s.keys);
        created_at = some (entries s.created_at);
      } in
      let p = spared parse_time newest_first now retention s.current_kid (entries s.created_at) in
      let s₁ = apply_retention_purge parse_time newest_first now retention cloned in
      let (few, same, kid) = max_keys_lem max s₁ positive (keep_if-Distinct p (entries s.keys) d) in
      (
        few,
        same
            ∙ lookup-keep_if p s.current_kid (entries s.keys)
                (rw ((eq_iff s.current_kid s.current_kid).1 refl)),
        kid,
      )

  spared_young :
      (now retention : ℤ) (s : SharedJwksState) (kid created : String) (t : ℤ)
      → lookup kid (entries s.created_at) ≡ some created
      → parse_time created ≡ some t
      → ltb_ℤ retention (time_sub now t) ≡ false
      → spared parse_time newest_first now retention s.current_kid (entries s.created_at) kid ≡ true
  spared_young now retention s kid created t e parsed fresh =
      elim (Bool-cases (str_eq kid s.current_kid)) [
        | inl same ↦ rw same
        | inr other ↦ ground (arith, other, e, parsed, fresh)
      ]

  length-keep_if : (p : String → Bool) (m : Dict String) → length (keep_if p m) ≤ length m
  unfolding keep_if
  length-keep_if p [] = omega arith
  length-keep_if p ((k, v) ∷ m) = ground (arith, length-keep_if p m)

  -- While there are no more keys than the maximum, a purge removes no key that is within the
  -- retention period, so tokens signed with it can still be verified: its creation text parses to
  -- a time, and the time since then is not more than the period.
  purge_state-young :
      (now retention : ℤ) (max : ℕ) (s : SharedJwksState) (kid created : String) (t : ℤ)
      → length (entries s.keys) ≤ max
      → lookup kid (entries s.created_at) ≡ some created
      → parse_time created ≡ some t
      → time_sub now t ≤ℤ retention
      → lookup kid (entries (purge_state parse_time newest_first now retention (pos max) s).keys)
        ≡ lookup kid (entries s.keys)
  unfolding purge_state apply_retention_purge apply_max_keys_purge
  purge_state-young now retention max s kid created t few e parsed young =
      let p = spared parse_time newest_first now retention s.current_kid (entries s.created_at) in
      let fits : leb_ℤ (pos (length (keep_if p (entries s.keys)))) (pos max) ≡ true =
        ground (arith, length-keep_if p (entries s.keys)) in
      let fresh : ltb_ℤ retention (time_sub now t) ≡ false = ground arith in
      elim (Bool-cases (leb_ℤ (pos max) (pos 0))) [
        | inl z ↦ rw z (
            lookup-keep_if p kid (entries s.keys)
              (spared_young now retention s kid created t e parsed fresh))
        | inr z ↦
            rw (z, fits)
              (lookup-keep_if p kid (entries s.keys)
                (spared_young now retention s kid created t e parsed fresh))
      ]
