-- ===== src/Common/Trim.antt =====
-- unicode.IsSpace, unicode.IsControl and strings.TrimSpace on code points.
use Prim.Native.Nat.{ℕ}
use mathlib.Core.Path.{◌≡◌, refl}
use mathlib.Core.Bool.{Bool, true, false, ◌||◌, ◌&&◌}
use mathlib.Core.List.{[], ◌∷◌}
use native.Mathlib.Omega.{arith}
use jproxy_go.Common.Tests.{◌==◌, leb, if◌then◌else◌}
use jproxy_go.Common.Texts.{Text}

unfoldable pub is_space : ℕ → Bool
is_space c =
    leb 9 c && leb c 13
    || c == 32
    || c == 0x85
    || c == 0xA0
    || c == 0x1680
    || leb 0x2000 c && leb c 0x200A
    || c == 0x2028
    || c == 0x2029
    || c == 0x202F
    || c == 0x205F
    || c == 0x3000

unfoldable pub is_control : ℕ → Bool
is_control c = leb c 31 || leb 127 c && leb c 159

-- strings.IndexFunc(value, unicode.IsControl) >= 0
unfoldable pub has_control : Text → Bool
has_control [] = false
has_control (c ∷ s) = is_control c || has_control s

unfoldable pub trim_left : Text → Text
trim_left [] = []
trim_left (c ∷ s) = let rest = trim_left s in if is_space c then rest else c ∷ s

abbrev pub is_empty : Text → Bool
is_empty [] = true
is_empty (c ∷ s) = false

unfoldable pub trim_right : Text → Text
trim_right [] = []
trim_right (c ∷ s) = let rest = trim_right s in if is_space c && is_empty rest then [] else c ∷ rest

unfoldable pub trim_space : Text → Text
unfolding trim_left trim_right
trim_space s = trim_right (trim_left s)

trim_right-trim_right : (s : Text) → trim_right (trim_right s) ≡ trim_right s
unfolding trim_right
trim_right-trim_right [] = refl
trim_right-trim_right (c ∷ s) = ground (arith, trim_right-trim_right s)

trim_left-trim_right_kept :
    (c : ℕ) (s : Text) → is_space c ≡ false → trim_left (trim_right (c ∷ s)) ≡ trim_right (c ∷ s)
unfolding trim_left trim_right
trim_left-trim_right_kept c s h = ground arith

trim_left-trim_right-trim_left :
    (s : Text) → trim_left (trim_right (trim_left s)) ≡ trim_right (trim_left s)
unfolding trim_left trim_right
trim_left-trim_right-trim_left [] = refl
trim_left-trim_right-trim_left (c ∷ s) = ground (arith, trim_left-trim_right-trim_left s)

pub trim_space-trim_space : (s : Text) → trim_space (trim_space s) ≡ trim_space s
unfolding trim_space
trim_space-trim_space s =
    rw (trim_left-trim_right-trim_left s) (trim_right-trim_right (trim_left s))
