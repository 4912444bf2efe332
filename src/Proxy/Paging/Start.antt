-- ===== src/Proxy/Paging/Start.antt =====
-- Where a page of an expanded search starts (internal/proxy/server.go, calculateCurrentIndex).
use jproxy_go.Common.{
  ℕ, zero, suc, ◌+◌, ◌-◌, ◌≤◌, ◌<◌, ◌≡◌, refl, ◌⊎◌, inl, inr, true, false, none, some, List, [],
  ◌∷◌, arith, ℤ, ◌-ℤ◌, ◌≤ℤ◌, ltb_ℤ, leb_ℤ, eq_ℤ, pos, Bool-cases, Option-cases, length, take,
  get_elem?, All,
}
use jproxy_go.Proxy.Paging.{reaching_from, calculate_current_index}

-- The entries below an index.
abbrev pub AllBelow : ℤ → ℕ → List ℤ → Type 0
AllBelow offset i offsets = All (λ v. ltb_ℤ v offset ≡ true) (take i offsets)

-- `i` is the first index whose entry reaches the offset, or the last one if none does.
pub record IsCurrent (offset : ℤ) (offsets : List ℤ) (i : ℕ) : Type 0 where
  pub in_range : i < length offsets
  pub below : eq_ℤ offset (pos 0) ≡ false → AllBelow offset i offsets
  pub reaches_or_last :
      (v : ℤ)
      → get_elem? offsets i ≡ some v
      → eq_ℤ offset (pos 0) ≡ false
      → (offset ≤ℤ v) ⊎ (suc i ≡ length offsets)

reaching_from_le :
    (k j : ℕ) (offset : ℤ) (offsets : List ℤ) → reaching_from k offset offsets ≡ some j → k ≤ j
unfolding reaching_from
reaching_from_le k j offset [] h = absurd (ground arith)
reaching_from_le k j offset (w ∷ offsets) h =
    ground (arith, reaching_from_le (suc k) j offset offsets)

reaching_from-some :
    (k i : ℕ) (offset : ℤ) (offsets : List ℤ)
    → reaching_from k offset offsets ≡ some (k + i)
    → (i < length offsets)
      × AllBelow offset i offsets
      × ((v : ℤ) → get_elem? offsets i ≡ some v → offset ≤ℤ v)
unfolding reaching_from
reaching_from-some k i offset [] h = absurd (ground arith)
reaching_from-some k zero offset (w ∷ offsets) h =
    (omega arith, tt, λ v e. ground (arith, reaching_from_le (suc k) k offset offsets))
reaching_from-some k (suc i) offset (w ∷ offsets) h = elim (Bool-cases (leb_ℤ offset w)) [
  | inl here ↦ absurd (ground arith)
  | inr later ↦
      let (r, b, v) = reaching_from-some (suc k) i offset offsets (ground arith) in
      (omega (arith, r), (ground arith, b), v)
]

reaching_from-none :
    (k : ℕ) (offset : ℤ) (offsets : List ℤ)
    → reaching_from k offset offsets ≡ none
    → All (λ v. ltb_ℤ v offset ≡ true) offsets
unfolding reaching_from
reaching_from-none k offset [] h = tt
reaching_from-none k offset (w ∷ offsets) h =
    ground (arith, reaching_from-none (suc k) offset offsets)

AllBelow-take :
    (offset : ℤ) (n : ℕ) (offsets : List ℤ)
    → All (λ v. ltb_ℤ v offset ≡ true) offsets
    → AllBelow offset n offsets
AllBelow-take offset zero offsets h = tt
AllBelow-take offset (suc n) [] h = tt
AllBelow-take offset (suc n) (v ∷ offsets) h = (h.0, AllBelow-take offset n offsets h.1)

less_one : (n : ℕ) → 1 ≤ n → pos n -ℤ pos 1 ≡ pos (n - 1)
unfolding ◌-ℤ◌
less_one n h = ground arith

-- The index that a page starts at: the first title for the offset 0, else the first one whose end
-- reaches the offset, and the last one if none does.
pub calculate_current_index_lem :
    (offset : ℤ) (offsets : List ℤ)
    → 1 ≤ length offsets
    → (i : ℕ) × (calculate_current_index offset offsets ≡ pos i)
      × IsCurrent offset offsets i
      × (eq_ℤ offset (pos 0) ≡ true → i ≡ 0)
unfolding calculate_current_index
calculate_current_index_lem offset offsets h = elim (Bool-cases (eq_ℤ offset (pos 0))) [
  | inl at_start ↦ (
    0,
    ground arith,
    record { in_range = h; below = λ n. tt; reaches_or_last = λ v e n. absurd (ground arith) },
    λ n. refl,
  )
  | inr further ↦ elim (Option-cases (reaching_from 0 offset offsets)) [
    | inl none_reaches ↦ (
      length offsets - 1,
      ground (arith, less_one (length offsets) h),
      record {
        in_range = omega arith;
        below = λ n.
            AllBelow-take offset (length offsets - 1) offsets
              (reaching_from-none 0 offset offsets none_reaches);
        reaches_or_last = λ v e n. inr (omega arith);
      },
      λ n. absurd (ground arith),
    )
    | inr (i, found) ↦
        let (r, b, v) = reaching_from-some 0 i offset offsets (ground (arith, found)) in
        (
          i,
          ground arith,
          record { in_range = r; below = λ n. b; reaches_or_last = λ w e n. inl (v w e) },
          λ n. absurd (ground arith),
        )
  ]
]
