-- ===== src/Postgres/Trail/Hidden.antt =====
-- The rows that audit_repository.go writes and never reads back.
use mathlib.Core.List.{Memᴰ}
use nexora_core.Prelude.{List, []}
use nexora_core.Domain.Errors.{Result, ok, err}

module _ {A : Type 0} where
  abbrev or_nil : Result (List A) → List A
  or_nil (ok xs) = xs
  or_nil (err e) = []
