-- ===== src/Common/Paths.antt =====
-- strings.Split and strings.Join at slashes, and path.Clean, path.Dir and path.Base.
use Prim.Native.Nat.{ℕ, suc}
use mathlib.Core.Bool.{Bool, ◌&&◌, ◌||◌}
use mathlib.Core.List.{List, [], ◌∷◌, ◌++◌}
use mathlib.Core.Option.{none, some}
use jproxy_go.Common.Tests.{◌==◌, if◌then◌else◌}
use jproxy_go.Common.Lists.{take, drop}
use jproxy_go.Common.Texts.{Text, codes, text_eq}
use jproxy_go.Common.Trim.{is_empty}
use jproxy_go.Common.Finding.{starts_with, last_index}

-- strings.Split at a separator of one character, with the part read so far
unfoldable pub split_from : ℕ → Text → Text → List Text
split_from separator part [] = part ∷ []
split_from separator part (c ∷ s) =
    let next_part = split_from separator [] s in
    let same_part = split_from separator (part ++ c ∷ []) s in
    if c == separator then part ∷ next_part else same_part

unfoldable pub split_slash : Text → List Text
split_slash value = split_from 47 [] value

-- strings.Join(segments, "/")
unfoldable pub join_slash : List Text → Text
join_slash [] = []
join_slash (x ∷ []) = x
join_slash (x ∷ y ∷ xs) = x ++ 47 ∷ join_slash (y ∷ xs)

abbrev pub reverse_onto : List Text → List Text → List Text
reverse_onto [] ys = ys
reverse_onto (x ∷ xs) ys = reverse_onto xs (x ∷ ys)

-- path.Clean on segments; `out` has the segments kept, the last one first.
unfoldable pub clean_segments : Bool → List Text → List Text → List Text
clean_segments rooted out [] = reverse_onto out []
clean_segments rooted out (x ∷ xs) =
    let dropped = clean_segments rooted out xs in
    let kept = clean_segments rooted (x ∷ out) xs in
    let up : List Text = elim out [
      | [] ↦ if rooted then dropped else kept
      | o ∷ rest ↦ if text_eq o (codes "..") then kept else clean_segments rooted rest xs
    ] in
    if is_empty x || text_eq x (codes ".")
    then dropped
    else if text_eq x (codes "..")
    then up
    else kept

unfoldable pub path_clean : Text → Text
path_clean value =
    let rooted = starts_with (codes "/") value in
    let body = join_slash (clean_segments rooted [] (split_slash value)) in
    if rooted then 47 ∷ body else if is_empty body then codes "." else body

-- The text after the last slash, and the text up to it, with the slash.
unfoldable pub after_slash : Text → Text
after_slash value = elim (last_index (codes "/") value) [
  | none ↦ value
  | some i ↦ drop (suc i) value
]

unfoldable pub up_to_slash : Text → Text
up_to_slash value = elim (last_index (codes "/") value) [ none ↦ [] | some i ↦ take (suc i) value ]

unfoldable pub path_dir : Text → Text
path_dir value = path_clean (up_to_slash value)

unfoldable pub trim_slashes : Text → Text
trim_slashes [] = []
trim_slashes (c ∷ s) =
    let rest = trim_slashes s in if c == 47 && is_empty rest then [] else c ∷ rest

unfoldable pub path_base : Text → Text
path_base [] = codes "."
path_base (c ∷ s) =
    let name = after_slash (trim_slashes (c ∷ s)) in if is_empty name then codes "/" else name
