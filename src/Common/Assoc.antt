-- ===== src/Common/Assoc.antt =====
-- A `HashMap` keyed by identifiers: an association list in which a key stands once. The order of
-- the entries is the map's iteration order, of which no theorem depends.
use Prim.Native.Nat.{ℕ, suc, ◌+◌, ◌≤◌}
use mathlib.Core.Path.{◌≡◌, refl}
use mathlib.Core.Bool.{Bool, true, false, ◌||◌}
use mathlib.Core.List.{List, [], ◌∷◌}
use mathlib.Core.Option.{Option, none, some}
use native.Mathlib.Omega.{arith}
use p2p_file.Common.Tests.{◌==◌, if◌then◌else◌}
use p2p_file.Common.Lists.{length}

module _ {ℓ} {V : Type ℓ} where
  abbrev pub lookup : ℕ → List (ℕ × V) → Option V
  lookup k [] = none
  lookup k ((j, v) ∷ m) = if j == k then some v else lookup k m

  abbrev pub contains_key : ℕ → List (ℕ × V) → Bool
  contains_key k [] = false
  contains_key k ((j, v) ∷ m) = j == k || contains_key k m

  abbrev pub insert : ℕ → V → List (ℕ × V) → List (ℕ × V)
  insert k v [] = (k, v) ∷ []
  insert k v ((j, w) ∷ m) = if j == k then (k, v) ∷ m else (j, w) ∷ insert k v m

  abbrev pub remove : ℕ → List (ℕ × V) → List (ℕ × V)
  remove k [] = []
  remove k ((j, w) ∷ m) = let rest = remove k m in if j == k then rest else (j, w) ∷ rest

  -- How many entries have a value that a test accepts.
  abbrev pub count_values : (V → Bool) → List (ℕ × V) → ℕ
  count_values p [] = 0
  count_values p ((j, v) ∷ m) = (if p v then 1 else 0) + count_values p m

  -- Every key stands once.
  abbrev pub IsMap : List (ℕ × V) → Type 0
  IsMap [] = Unit
  IsMap ((j, v) ∷ m) = (contains_key j m ≡ false) × IsMap m

module _ {ℓ} {V : Type ℓ} where
  pub lookup-insert :
      (k j : ℕ) (v : V) (m : List (ℕ × V))
      → lookup j (insert k v m) ≡ (if k == j then some v else lookup j m)
  lookup-insert k j v [] = refl
  lookup-insert k j v ((i, w) ∷ m) = ground (arith, lookup-insert k j v m)

  pub lookup-remove :
      (k j : ℕ) (m : List (ℕ × V)) → lookup j (remove k m) ≡ (if k == j then none else lookup j m)
  lookup-remove k j [] = ground arith
  lookup-remove k j ((i, w) ∷ m) = ground (arith, lookup-remove k j m)

  pub contains_key-insert :
      (k j : ℕ) (v : V) (m : List (ℕ × V))
      → contains_key j (insert k v m) ≡ (k == j || contains_key j m)
  contains_key-insert k j v [] = refl
  contains_key-insert k j v ((i, w) ∷ m) = ground (arith, contains_key-insert k j v m)

  pub contains_key-remove :
      (k j : ℕ) (m : List (ℕ × V))
      → contains_key j (remove k m) ≡ (if k == j then false else contains_key j m)
  contains_key-remove k j [] = ground arith
  contains_key-remove k j ((i, w) ∷ m) = ground (arith, contains_key-remove k j m)

  pub insert-IsMap : (k : ℕ) (v : V) (m : List (ℕ × V)) → IsMap m → IsMap (insert k v m)
  insert-IsMap k v [] h = (refl, tt)
  insert-IsMap k v ((i, w) ∷ m) h =
      ground (arith, insert-IsMap k v m h.1, contains_key-insert k i v m)

  pub remove-IsMap : (k : ℕ) (m : List (ℕ × V)) → IsMap m → IsMap (remove k m)
  remove-IsMap k [] h = tt
  remove-IsMap k ((i, w) ∷ m) h = ground (arith, remove-IsMap k m h.1, contains_key-remove k i m)

  pub count_values-insert :
      (p : V → Bool) (k : ℕ) (v : V) (m : List (ℕ × V))
      → contains_key k m ≡ false
      → count_values p (insert k v m) ≡ (if p v then 1 else 0) + count_values p m
  count_values-insert p k v [] h = refl
  count_values-insert p k v ((i, w) ∷ m) h = ground (arith, count_values-insert p k v m)

  pub length-insert :
      (k : ℕ) (v : V) (m : List (ℕ × V))
      → length (insert k v m) ≡ (if contains_key k m then length m else suc (length m))
  length-insert k v [] = refl
  length-insert k v ((i, w) ∷ m) = ground (arith, length-insert k v m)

  pub remove_absent : (k : ℕ) (m : List (ℕ × V)) → contains_key k m ≡ false → remove k m ≡ m
  remove_absent k [] h = refl
  remove_absent k ((i, w) ∷ m) h = ground (arith, remove_absent k m)

  pub count_values-remove :
      (p : V → Bool) (k : ℕ) (m : List (ℕ × V)) (v : V)
      → IsMap m
      → lookup k m ≡ some v
      → count_values p m ≡ (if p v then 1 else 0) + count_values p (remove k m)
  count_values-remove p k [] v u h = cc
  count_values-remove p k ((i, w) ∷ m) v u h =
      ground (arith, count_values-remove p k m v u.1, remove_absent k m)

  pub length-remove :
      (k : ℕ) (m : List (ℕ × V))
      → IsMap m
      → length m ≡ (if contains_key k m then suc (length (remove k m)) else length (remove k m))
  length-remove k [] u = refl
  length-remove k ((i, w) ∷ m) u = ground (arith, length-remove k m u.1, remove_absent k m)

  pub length-remove-le : (k : ℕ) (m : List (ℕ × V)) → length (remove k m) ≤ length m
  length-remove-le k [] = omega arith
  length-remove-le k ((i, w) ∷ m) = ground (arith, length-remove-le k m)

  pub contains_key-lookup :
      (k : ℕ) (m : List (ℕ × V))
      → contains_key k m ≡ elim (lookup k m) [ none ↦ false | some _ ↦ true ]
  contains_key-lookup k [] = refl
  contains_key-lookup k ((i, w) ∷ m) = ground (arith, contains_key-lookup k m)

  pub count_values-le : (p : V → Bool) (m : List (ℕ × V)) → count_values p m ≤ length m
  count_values-le p [] = omega arith
  count_values-le p ((i, w) ∷ m) = ground (arith, count_values-le p m)
