-- ===== src/Common/Assoc.antt =====
-- A Go map with string keys: an association list whose operations keep the keys distinct.
use Prim.Native.Nat.{suc, ◌≤◌}
use mathlib.Core.Path.{◌≡◌, refl}
use mathlib.Core.Bool.{Bool, true, false}
use mathlib.Core.Option.{Option, none, some}
use mathlib.Core.List.{List, [], ◌∷◌}
use native.Mathlib.Omega.{arith}
use jproxy_go.Common.Tests.{if◌then◌else◌}
use jproxy_go.Common.Lists.{length}
use jproxy_go.Common.Texts.{Text, text_eq, text_eq_iff}

abbrev pub Map {ℓ} : Type ℓ → Type ℓ
Map V = List (Text × V)

module _ {ℓ} {V : Type ℓ} where
  -- m[k], with `none` for a missing key
  unfoldable pub lookup : Text → Map V → Option V
  lookup k [] = none
  lookup k ((j, v) ∷ m) = if text_eq j k then some v else lookup k m

  -- m[k] = v
  unfoldable pub insert : Text → V → Map V → Map V
  insert k v [] = (k, v) ∷ []
  insert k v ((j, w) ∷ m) = if text_eq j k then (k, v) ∷ m else (j, w) ∷ insert k v m

  -- delete(m, k)
  unfoldable pub delete : Text → Map V → Map V
  delete k [] = []
  delete k ((j, v) ∷ m) = let rest = delete k m in if text_eq j k then rest else (j, v) ∷ rest

  pub lookup-insert :
      (k j : Text) (v : V) (m : Map V)
      → lookup j (insert k v m) ≡ (if text_eq k j then some v else lookup j m)
  unfolding lookup insert
  lookup-insert k j v [] = refl
  lookup-insert k j v ((i, w) ∷ m) =
      ground (arith, text_eq_iff k j, text_eq_iff i k, text_eq_iff i j, lookup-insert k j v m)

  pub lookup-delete :
      (k j : Text) (m : Map V) → lookup j (delete k m) ≡ (if text_eq k j then none else lookup j m)
  unfolding lookup delete
  lookup-delete k j [] = ground arith
  lookup-delete k j ((i, w) ∷ m) =
      ground (arith, text_eq_iff k j, text_eq_iff i k, text_eq_iff i j, lookup-delete k j m)

  pub length-delete-le : (k : Text) (m : Map V) → length (delete k m) ≤ length m
  unfolding delete
  length-delete-le k [] = omega arith
  length-delete-le k ((i, w) ∷ m) = ground (arith, length-delete-le k m)

pub ruleset map_laws = (lookup-insert, lookup-delete)

module _ {ℓ} {V : Type ℓ} where
  -- _, ok := m[k]
  abbrev pub has : Text → Map V → Bool
  has k m = elim (lookup k m) [ none ↦ false | some v ↦ true ]

  -- No key stands twice, so the length of the list is `len(m)`.
  abbrev pub DistinctKeys : Map V → Type 0
  DistinctKeys [] = Unit
  DistinctKeys ((k, v) ∷ m) = (has k m ≡ false) × DistinctKeys m

  pub has-delete :
      (k j : Text) (m : Map V) → has j (delete k m) ≡ (if text_eq k j then false else has j m)
  has-delete k j m = ground (arith, lookup-delete k j m)

  pub has-insert :
      (k j : Text) (v : V) (m : Map V)
      → has j (insert k v m) ≡ (if text_eq k j then true else has j m)
  has-insert k j v m = ground (arith, lookup-insert k j v m)

  pub delete-DistinctKeys : (k : Text) (m : Map V) → DistinctKeys m → DistinctKeys (delete k m)
  unfolding delete
  delete-DistinctKeys k [] h = tt
  delete-DistinctKeys k ((i, w) ∷ m) h =
      ground (arith, delete-DistinctKeys k m h.1, has-delete k i m)

  pub insert-DistinctKeys :
      (k : Text) (v : V) (m : Map V) → DistinctKeys m → DistinctKeys (insert k v m)
  unfolding insert lookup
  insert-DistinctKeys k v [] h = (refl, tt)
  insert-DistinctKeys k v ((i, w) ∷ m) h =
      ground
        (arith, insert-DistinctKeys k v m h.1, has-insert k i v m, text_eq_iff i k, text_eq_iff k i)

  delete_absent : (k : Text) (m : Map V) → has k m ≡ false → delete k m ≡ m
  unfolding delete lookup
  delete_absent k [] h = refl
  delete_absent k ((i, w) ∷ m) h = ground (arith, delete_absent k m)

  -- Deleting a key that is there makes the map one entry smaller.
  pub length-delete :
      (k : Text) (m : Map V)
      → DistinctKeys m
      → has k m ≡ true
      → length m ≡ suc (length (delete k m))
  unfolding delete lookup
  length-delete k ((i, w) ∷ m) d h =
      ground (arith, length-delete k m d.1, delete_absent k m, text_eq_iff i k)
  length-delete k [] d h = cc

  pub length-insert_present :
      (k : Text) (v : V) (m : Map V) → has k m ≡ true → length (insert k v m) ≡ length m
  unfolding insert lookup
  length-insert_present k v [] h = cc
  length-insert_present k v ((i, w) ∷ m) h = ground (arith, length-insert_present k v m)

  pub length-insert_absent :
      (k : Text) (v : V) (m : Map V) → has k m ≡ false → length (insert k v m) ≡ suc (length m)
  unfolding insert lookup
  length-insert_absent k v [] h = refl
  length-insert_absent k v ((i, w) ∷ m) h = ground (arith, length-insert_absent k v m)
