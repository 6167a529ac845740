-- ===== src/Common/Dict.antt =====
-- A hash map keyed by numbers, as an association list: Rust's `HashMap<u64, _>` and Python's
-- `dict[int, _]`. Neither is iterated over, so the order of the entries says nothing.
use Prim.Native.Nat.{ℕ}
use mathlib.Core.Path.{◌≡◌, refl}
use mathlib.Core.Logic.{◌≢◌}
use mathlib.Core.Option.{Option, none, some}
use mathlib.Core.List.{List, [], ◌∷◌}
use native.Mathlib.Omega.{arith}
use century_ring.Common.Tests.{◌==◌, if◌then◌else◌}

abbrev pub Dict {ℓ} : Type ℓ → Type ℓ
Dict V = List (ℕ × V)

module _ {ℓ} {V : Type ℓ} where
  unfoldable pub lookup : ℕ → Dict V → Option V
  lookup k [] = none
  lookup k ((j, v) ∷ d) = if k == j then some v else lookup k d

  -- Every entry of the key goes, so that a lookup after it finds none.
  unfoldable pub remove : ℕ → Dict V → Dict V
  remove k [] = []
  remove k ((j, v) ∷ d) = let rest = remove k d in if k == j then rest else (j, v) ∷ rest

  -- The old value of the key, if any, is overwritten.
  unfoldable pub insert : ℕ → V → Dict V → Dict V
  unfolding remove
  insert k v d = (k, v) ∷ remove k d

  pub lookup-remove :
      (k j : ℕ) (d : Dict V) → lookup j (remove k d) ≡ (if j == k then none else lookup j d)
  unfolding lookup remove
  lookup-remove k j [] = ground arith
  lookup-remove k j ((i, v) ∷ d) = ground (arith, lookup-remove k j d)

  pub lookup-insert :
      (k j : ℕ) (v : V) (d : Dict V)
      → lookup j (insert k v d) ≡ (if j == k then some v else lookup j d)
  unfolding lookup insert
  lookup-insert k j v d = ground (arith, lookup-remove k j d)

  pub lookup-remove_ne : (k j : ℕ) (d : Dict V) → j ≢ k → lookup j (remove k d) ≡ lookup j d
  lookup-remove_ne k j d h = ground (arith, lookup-remove k j d)

  pub lookup-insert_ne :
      (k j : ℕ) (v : V) (d : Dict V) → j ≢ k → lookup j (insert k v d) ≡ lookup j d
  lookup-insert_ne k j v d h = ground (arith, lookup-insert k j v d)

  pub lookup-insert_self : (k : ℕ) (v : V) (d : Dict V) → lookup k (insert k v d) ≡ some v
  lookup-insert_self k v d = ground (arith, lookup-insert k k v d)

  pub lookup-remove_self : (k : ℕ) (d : Dict V) → lookup k (remove k d) ≡ none
  lookup-remove_self k d = ground (arith, lookup-remove k k d)

pub lookup-empty {ℓ} : {V : Type ℓ} (k : ℕ) → lookup {V = V} k [] ≡ none
unfolding lookup
lookup-empty k = refl

pub ruleset dict_laws = (lookup-remove, lookup-insert, lookup-empty)
