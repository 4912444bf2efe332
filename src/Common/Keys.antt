-- ===== src/Common/Keys.antt =====
-- Lists of strings as sets: membership, distinctness, and a map whose keys a list enumerates.
use Prim.Native.Nat.{ℕ, suc}
use mathlib.Core.Path.{◌≡◌, refl}
use mathlib.Core.Bool.{Bool, false, ◌||◌}
use mathlib.Core.List.{List, [], ◌∷◌, ◌++◌}
use native.Mathlib.Omega.{arith}
use jproxy_go.Common.Tests.{if◌then◌else◌}
use Prim.Native.Nat.{ℕ, zero, suc}
use jproxy_go.Common.Lists.{length, drop}
use jproxy_go.Common.Texts.{Text, text_eq, text_eq_iff, text_eq_refl}
use jproxy_go.Common.Assoc.{
  Map, lookup, delete, has, has-delete, DistinctKeys, delete-DistinctKeys, length-delete,
}

unfoldable pub mem : Text → List Text → Bool
mem k [] = false
mem k (x ∷ xs) = text_eq x k || mem k xs

abbrev pub Distinct : List Text → Type 0
Distinct [] = Unit
Distinct (x ∷ xs) = (mem x xs ≡ false) × Distinct xs

-- Removes the first occurrence.
unfoldable pub remove_first : Text → List Text → List Text
remove_first k [] = []
remove_first k (x ∷ xs) = let rest = remove_first k xs in if text_eq x k then xs else x ∷ rest

pub mem-append : (k : Text) (xs ys : List Text) → mem k (xs ++ ys) ≡ (mem k xs || mem k ys)
unfolding mem
mem-append k [] ys = refl
mem-append k (x ∷ xs) ys = ground (arith, mem-append k xs ys)

pub mem-remove_first :
    (k j : Text) (xs : List Text)
    → Distinct xs
    → mem j (remove_first k xs) ≡ (if text_eq k j then false else mem j xs)
unfolding mem remove_first
mem-remove_first k j [] d = ground arith
mem-remove_first k j (x ∷ xs) d =
    ground (arith, mem-remove_first k j xs d.1, text_eq_iff x k, text_eq_iff x j, text_eq_iff k j)

pub remove_first-Distinct : (k : Text) (xs : List Text) → Distinct xs → Distinct (remove_first k xs)
unfolding mem remove_first
remove_first-Distinct k [] d = tt
remove_first-Distinct k (x ∷ xs) d =
    ground (arith, remove_first-Distinct k xs d.1, mem-remove_first k x xs d.1)

pub snoc-Distinct :
    (xs : List Text) (k : Text) → Distinct xs → mem k xs ≡ false → Distinct (xs ++ k ∷ [])
unfolding mem
snoc-Distinct [] k d h = (refl, tt)
snoc-Distinct (x ∷ xs) k d h =
    ground
      (arith, snoc-Distinct xs k d.1, mem-append x xs (k ∷ []), text_eq_iff x k, text_eq_iff k x)

module _ {ℓ} {V : Type ℓ} where
  -- The list enumerates exactly the keys of the map.
  abbrev pub Enumerates : List Text → Map V → Type 0
  Enumerates ks m = (k : Text) → mem k ks ≡ has k m

  pub Enumerates-tail :
      (k : Text) (ks : List Text) (m : Map V)
      → mem k ks ≡ false
      → Enumerates (k ∷ ks) m
      → Enumerates ks (delete k m)
  unfolding mem
  Enumerates-tail k ks m fresh e j = ground (arith, e j, has-delete k j m, text_eq_iff k j)

  -- Distinct keys on both sides, and the same keys: then the lengths agree.
  pub length-Enumerates :
      (ks : List Text) (m : Map V)
      → Distinct ks
      → DistinctKeys m
      → Enumerates ks m
      → length m ≡ length ks
  unfolding mem lookup
  length-Enumerates [] [] d u e = refl
  length-Enumerates [] ((i, w) ∷ m) d u e = ground (arith, e i, text_eq_refl i)
  length-Enumerates (k ∷ ks) m d u e = omega (
    arith,
    length-delete k m u (ground (arith, e k, text_eq_refl k)),
    length-Enumerates ks (delete k m) d.1 (delete-DistinctKeys k m u)
        (Enumerates-tail k ks m d.0 e),
  )

pub mem-drop : (n : ℕ) (k : Text) (xs : List Text) → mem k xs ≡ false → mem k (drop n xs) ≡ false
unfolding mem
mem-drop zero k xs h = h
mem-drop (suc n) k [] h = refl
mem-drop (suc n) k (x ∷ xs) h = mem-drop n k xs (ground arith)
