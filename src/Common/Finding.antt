-- ===== src/Common/Finding.antt =====
-- strings.HasPrefix, Index, Contains, Count, LastIndex, Replace and TrimSuffix.
use Prim.Native.Nat.{ℕ, zero, suc, ◌+◌, ◌-◌}
use mathlib.Core.Bool.{Bool, true, false, ◌&&◌, ◌||◌}
use mathlib.Core.List.{[], ◌∷◌, ◌++◌}
use mathlib.Core.Option.{Option, none, some}
use jproxy_go.Common.Tests.{◌==◌, ltb, if◌then◌else◌}
use jproxy_go.Common.Lists.{length, take, drop}
use jproxy_go.Common.Texts.{Text, text_eq}
use jproxy_go.Common.Trim.{is_empty}

unfoldable pub starts_with : Text → Text → Bool
starts_with [] s = true
starts_with (c ∷ p) [] = false
starts_with (c ∷ p) (d ∷ s) = c == d && starts_with p s

abbrev pub shift : ℕ → Option ℕ → Option ℕ
shift n none = none
shift n (some i) = some (n + i)

-- strings.Index(s, p); `none` is -1.
unfoldable pub index : Text → Text → Option ℕ
index [] [] = some 0
index (c ∷ p) [] = none
index p (d ∷ s) = let rest = index p s in if starts_with p (d ∷ s) then some 0 else shift 1 rest

unfoldable pub contains : Text → Text → Bool
contains p s = elim (index p s) [ none ↦ false | some i ↦ true ]

-- strings.Count(s, p) of a p that is not empty; the number is of the characters still to be skipped.
unfoldable pub count_from : Text → ℕ → Text → ℕ
count_from p n [] = 0
count_from p (suc n) (d ∷ s) = count_from p n s
count_from p zero (d ∷ s) =
    let after = count_from p (length p - 1) s in
    let rest = count_from p 0 s in if starts_with p (d ∷ s) then suc after else rest

-- strings.LastIndex(s, p) of a p that is not empty
unfoldable pub last_index : Text → Text → Option ℕ
last_index p [] = none
last_index p (d ∷ s) = elim (last_index p s) [
  | some i ↦ some (suc i)
  | none ↦ if starts_with p (d ∷ s) then some 0 else none
]

-- strings.Replace(s, old, new, 1)
unfoldable pub replace_first : Text → Text → Text → Text
replace_first s old new = elim (index old s) [
  | none ↦ s
  | some i ↦ take i s ++ new ++ drop (i + length old) s
]

-- strings.ReplaceAll(s, old, new) of an old that is not empty; the number is of the characters of an
-- occurrence still to be skipped.
unfoldable pub replace_all_from : Text → Text → ℕ → Text → Text
replace_all_from old new n [] = []
replace_all_from old new (suc n) (c ∷ s) = replace_all_from old new n s
replace_all_from old new zero (c ∷ s) =
    let after = replace_all_from old new (length old - 1) s in
    let rest = replace_all_from old new 0 s in
    if starts_with old (c ∷ s) then new ++ after else c ∷ rest

unfoldable pub replace_all : Text → Text → Text → Text
replace_all s old new = replace_all_from old new 0 s

-- strings.TrimSuffix
unfoldable pub trim_suffix : Text → Text → Text
trim_suffix suffix [] = []
trim_suffix suffix (c ∷ s) =
    let rest = trim_suffix suffix s in if text_eq (c ∷ s) suffix then [] else c ∷ rest

-- strings.HasSuffix
unfoldable pub has_suffix : Text → Text → Bool
has_suffix suffix [] = is_empty suffix
has_suffix suffix (c ∷ s) = text_eq (c ∷ s) suffix || has_suffix suffix s

-- The length in bytes of a text in UTF-8.
unfoldable pub utf8_length : Text → ℕ
utf8_length [] = 0
utf8_length (c ∷ s) =
    (if ltb c 0x80 then 1 else if ltb c 0x800 then 2 else if ltb c 0x10000 then 3 else 4)
    + utf8_length s
