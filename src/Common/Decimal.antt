-- ===== src/Common/Decimal.antt =====
-- strconv.Itoa and strconv.Atoi.
use Prim.Native.Nat.{ℕ, zero, suc, ◌+◌, ◌-◌, ◌*◌, ◌/◌, ◌%◌, ◌^◌, ◌<◌}
use mathlib.Core.Path.{◌≡◌, refl}
use mathlib.Core.Logic.{inl, inr}
use mathlib.Core.Bool.{Bool, true, false, ◌&&◌, not}
use mathlib.Core.List.{[], ◌∷◌, ◌++◌}
use mathlib.Core.Option.{Option, none, some}
use native.Mathlib.Omega.{arith}
use jproxy_go.Common.Tests.{◌==◌, leb, ltb, if◌then◌else◌, Bool-cases}
use jproxy_go.Common.Int.{ℤ, pos, negsuc, sub_ℕ}
use jproxy_go.Common.Texts.{Text}
use jproxy_go.Common.Trim.{is_empty}

-- \d
abbrev pub is_digit : ℕ → Bool
is_digit c = leb 48 c && leb c 57

-- \d*
unfoldable pub all_digits : Text → Bool
all_digits [] = true
all_digits (c ∷ s) = is_digit c && all_digits s

-- \d+
unfoldable pub some_digits : Text → Bool
some_digits s = not (is_empty s) && all_digits s

-- The value of decimal digits, after those whose value is the number.
unfoldable pub decimal_from : ℕ → Text → ℕ
decimal_from n [] = n
decimal_from n (c ∷ s) = decimal_from (10 * n + (c - 48)) s

-- The digits of a number; the fuel is the number and one more.
unfoldable pub digits_from : ℕ → ℕ → Text
digits_from zero n = []
digits_from (suc fuel) n =
    let front = digits_from fuel (n / 10) in
    if ltb n 10 then (48 + n) ∷ [] else front ++ (48 + n % 10) ∷ []

unfoldable pub digits : ℕ → Text
digits n = digits_from (suc n) n

unfoldable pub itoa : ℤ → Text
itoa (pos n) = digits n
itoa (negsuc n) = 45 ∷ digits (suc n)

-- Atoi of the text after the sign; `none` is an error.
unfoldable pub unsigned : Text → Option ℕ
unsigned s = if some_digits s then some (decimal_from 0 s) else none

unfoldable pub atoi_pos : Text → Option ℤ
atoi_pos s = elim (unsigned s) [
  | none ↦ none
  | some n ↦ if ltb n (2 ^ 63) then some (pos n) else none
]

unfoldable pub atoi_neg : Text → Option ℤ
atoi_neg s = elim (unsigned s) [
  | none ↦ none
  | some n ↦ if leb n (2 ^ 63) then some (sub_ℕ 0 n) else none
]

unfoldable pub atoi : Text → Option ℤ
atoi [] = none
atoi (c ∷ s) = if c == 45 then atoi_neg s else if c == 43 then atoi_pos s else atoi_pos (c ∷ s)

decimal_from-append :
    (n : ℕ) (xs ys : Text) → decimal_from n (xs ++ ys) ≡ decimal_from (decimal_from n xs) ys
unfolding decimal_from
decimal_from-append n [] ys = refl
decimal_from-append n (x ∷ xs) ys = decimal_from-append (10 * n + (x - 48)) xs ys

decimal-digits_from : (fuel n : ℕ) → n < fuel → decimal_from 0 (digits_from fuel n) ≡ n
unfolding decimal_from digits_from
decimal-digits_from zero n h = absurd (omega arith)
decimal-digits_from (suc fuel) n h = elim (Bool-cases (ltb n 10)) [
  | inl one ↦ ground arith
  | inr more ↦ ground (
    arith,
    decimal-digits_from fuel (n / 10) (ground arith),
    decimal_from-append 0 (digits_from fuel (n / 10)) ((48 + n % 10) ∷ []),
  )
]

all_digits-append : (xs ys : Text) → all_digits (xs ++ ys) ≡ (all_digits xs && all_digits ys)
unfolding all_digits
all_digits-append [] ys = refl
all_digits-append (x ∷ xs) ys = ground (arith, all_digits-append xs ys)

all_digits-digits_from : (fuel n : ℕ) → all_digits (digits_from fuel n) ≡ true
unfolding all_digits digits_from
all_digits-digits_from zero n = refl
all_digits-digits_from (suc fuel) n = ground (
  arith,
  all_digits-digits_from fuel (n / 10),
  all_digits-append (digits_from fuel (n / 10)) ((48 + n % 10) ∷ []),
)

is_empty-snoc : (xs : Text) (c : ℕ) → is_empty (xs ++ c ∷ []) ≡ false
is_empty-snoc [] c = refl
is_empty-snoc (x ∷ xs) c = refl

is_empty-digits : (n : ℕ) → is_empty (digits n) ≡ false
unfolding digits digits_from
is_empty-digits n = ground (arith, is_empty-snoc (digits_from n (n / 10)) (48 + n % 10))

unsigned-digits : (n : ℕ) → unsigned (digits n) ≡ some n
unfolding unsigned some_digits digits
unsigned-digits n = ground (
  arith,
  is_empty-digits n,
  all_digits-digits_from (suc n) n,
  decimal-digits_from (suc n) n (omega arith),
)

-- Text that is an unsigned number starts with no sign.
atoi-unsigned : (s : Text) (n : ℕ) → unsigned s ≡ some n → atoi s ≡ atoi_pos s
unfolding atoi unsigned some_digits all_digits
atoi-unsigned [] n h = absurd (ground arith)
atoi-unsigned (c ∷ s) n h = ground arith

-- The integers of 64 bits.
abbrev pub IsInt64 : ℤ → Type 0
IsInt64 (pos n) = n < 2 ^ 63
IsInt64 (negsuc n) = n < 2 ^ 63

-- Atoi reads what Itoa prints.
pub atoi-itoa : (z : ℤ) → IsInt64 z → atoi (itoa z) ≡ some z
unfolding itoa atoi_pos atoi_neg atoi
atoi-itoa (pos n) h =
    ground (arith, atoi-unsigned (digits n) n (unsigned-digits n), unsigned-digits n)
atoi-itoa (negsuc n) h = ground (arith, unsigned-digits (suc n))
