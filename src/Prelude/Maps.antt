-- ===== src/Prelude/Maps.antt =====
-- Go's `map[string]V` as an association list, and lists measured by native numbers.
use Prim.Native.Nat.{ℕ, suc, ◌-◌}
use Prim.Native.Char.{Char, code}
use Prim.Native.String.{String, ◌++◌ as ◌<>◌}
use text.Mathlib.TextLemmas.{cons-append}
use mathlib.Core.Path.{◌≡◌, sym, ap, ◌∙◌}
use mathlib.Core.Logic.{◌≢◌, inl, inr}
use mathlib.Core.Bool.{Bool, true, false}
use mathlib.Core.Option.{Option, none, some}
use mathlib.Core.List.{List, [], ◌∷◌}
use native.Mathlib.Omega.{arith}
use text.Mathlib.Text.{◌==◌ as str_eq}
use text.Mathlib.TextEquality.{eq_iff}
use nexora_core.Prelude.Tests.{if◌then◌else◌, ◌==◌, Bool-cases}

module _ {ℓ} {A : Type ℓ} where
  abbrev pub length : List A → ℕ
  length [] = 0
  length (x ∷ xs) = suc (length xs)

module _ {A : Type 0} where
  -- `b[:n]` and `b[n:]`
  abbrev pub take : ℕ → List A → List A
  take n [] = []
  take n (x ∷ xs) = let rest = take (n - 1) xs in if n == 0 then [] else x ∷ rest

  abbrev pub drop : ℕ → List A → List A
  drop n [] = []
  drop n (x ∷ xs) = let rest = drop (n - 1) xs in if n == 0 then x ∷ xs else rest

-- Texts that the test tells apart are different.
pub text-ne : (a b : String) → str_eq a b ≡ false → a ≢ b
text-ne a b h e = cc (h, (eq_iff a b).1 e)

pub text-eq : (a b : String) → str_eq a b ≡ true → a ≡ b
text-eq a b h = (eq_iff a b).0 h

pub str_eq_comm : (a b : String) → str_eq a b ≡ str_eq b a
str_eq_comm a b = ground (arith, eq_iff a b, eq_iff b a)

-- Two texts with different first characters are different.
abbrev first : String → ℕ
first String.[] = 0
first (String.◌∷◌ c s) = code c

pub cons-append-ne :
    (c d : Char) (s t a b : String)
    → code c ≢ code d
    → str_eq ((String.◌∷◌ c s) <> a) ((String.◌∷◌ d t) <> b) ≡ false
cons-append-ne c d s t a b h =
    elim (Bool-cases (str_eq ((String.◌∷◌ c s) <> a) ((String.◌∷◌ d t) <> b))) [
      | inl e ↦ absurd (
          h (
            sym (ap first (cons-append c s a))
            ∙ ap first (text-eq _ _ e)
            ∙ ap first (cons-append d t b)))
      | inr e ↦ e
    ]

abbrev pub Dict {ℓ} : Type ℓ → Type ℓ
Dict V = List (String × V)

-- Membership of a text in a list of texts, Go's `slices.Contains`.
abbrev pub contains : List String → String → Bool
contains [] k = false
contains (j ∷ js) k = if str_eq j k then true else contains js k

module _ {ℓ} {V : Type ℓ} where
  abbrev pub lookup : String → Dict V → Option V
  lookup k [] = none
  lookup k ((j, v) ∷ m) = if str_eq j k then some v else lookup k m

  -- `delete(m, k)`
  abbrev pub erase : String → Dict V → Dict V
  erase k [] = []
  erase k ((j, v) ∷ m) = let rest = erase k m in if str_eq j k then rest else (j, v) ∷ rest

  -- `m[k] = v`
  abbrev pub insert : String → V → Dict V → Dict V
  insert k v m = (k, v) ∷ erase k m

  pub lookup-erase :
      (k j : String) (m : Dict V) → lookup j (erase k m) ≡ (if str_eq k j then none else lookup j m)
  lookup-erase k j [] = ground (arith, eq_iff k j)
  lookup-erase k j ((i, v) ∷ m) =
      ground (arith, eq_iff k j, eq_iff i k, eq_iff i j, lookup-erase k j m)

  pub lookup-insert :
      (k j : String) (v : V) (m : Dict V)
      → lookup j (insert k v m) ≡ (if str_eq k j then some v else lookup j m)
  lookup-insert k j v m = ground (arith, eq_iff k j, lookup-erase k j m)

  pub lookup-insert_same : (k : String) (v : V) (m : Dict V) → lookup k (insert k v m) ≡ some v
  lookup-insert_same k v m = rw ((eq_iff k k).1 (λ _. k)) (λ _. some v)

  pub lookup-erase_same : (k : String) (m : Dict V) → lookup k (erase k m) ≡ none
  lookup-erase_same k m = ground (arith, lookup-erase k k m, (eq_iff k k).1 (λ _. k))
