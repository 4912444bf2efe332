-- ===== src/Tasks/Rename/Paths.antt =====
-- What validPath accepts (internal/tasks/rename/plan.go).
use jproxy_go.Common.{
  ◌≡◌, refl, sym, inl, inr, true, false, ◌&&◌, not, List, [], ◌∷◌, ◌++◌, append_assoc, append-nil,
  arith, ◌==◌, Bool-cases, Text, codes, text_eq_refl, has_control, is_empty, starts_with, contains,
  split_from, split_slash, join_slash, reverse_onto, clean_segments, path_clean,
}
use jproxy_go.Tasks.Rename.{valid_segments, valid_path}

split_from_cons :
    (segment : Text) (s : Text) → (x : Text) × (xs : List Text) × (split_from 47 segment s ≡ x ∷ xs)
unfolding split_from
split_from_cons segment [] = (segment, [], refl)
split_from_cons segment (c ∷ s) = elim (Bool-cases (c == 47)) [
  | inl slash ↦ (segment, split_from 47 [] s, ground arith)
  | inr other ↦ let (x, xs, e) = split_from_cons (segment ++ c ∷ []) s in (x, xs, ground (arith, e))
]

join_cons : (x y : Text) (xs : List Text) → join_slash (x ∷ y ∷ xs) ≡ x ++ 47 ∷ join_slash (y ∷ xs)
unfolding join_slash
join_cons x y xs = refl

-- Joining what was split gives the text back.
join-split_from : (segment s : Text) → join_slash (split_from 47 segment s) ≡ segment ++ s
unfolding split_from join_slash
join-split_from segment [] = sym (append-nil segment)
join-split_from segment (c ∷ s) = elim (Bool-cases (c == 47)) [
  | inl slash ↦
      let (x, xs, e) = split_from_cons [] s in
      ground (arith, e, join-split_from [] s, join_cons segment x xs)
  | inr other ↦
      ground (arith, join-split_from (segment ++ c ∷ []) s, append_assoc segment (c ∷ []) s)
]

clean_valid :
    (out xs : List Text)
    → valid_segments xs ≡ true
    → clean_segments false out xs ≡ reverse_onto out xs
unfolding clean_segments valid_segments
clean_valid out [] h = refl
clean_valid out (x ∷ xs) h = ground (arith, clean_valid (x ∷ out) xs)

join-split_slash : (value : Text) → join_slash (split_slash value) ≡ value
unfolding split_slash
join-split_slash value = join-split_from [] value

-- A text of valid segments is not empty and does not start with a slash.
first_segment :
    (value : Text)
    → valid_segments (split_slash value) ≡ true
    → (is_empty value ≡ false) × (starts_with (codes "/") value ≡ false)
unfolding split_slash split_from valid_segments starts_with
first_segment [] h = absurd (ground arith)
first_segment (c ∷ s) h = ground arith

path_clean_valid :
    (value : Text) → valid_segments (split_slash value) ≡ true → path_clean value ≡ value
unfolding path_clean
path_clean_valid value h =
    ground
      (arith, first_segment value h, clean_valid [] (split_slash value) h, join-split_slash value)

-- A path is accepted just if it has no control character and no backslash, and none of its segments is
-- empty, "." or "..": the tests of an empty path, of a slash in front and of path.Clean refuse no other.
pub valid_path_lem :
    (value : Text)
    → valid_path value ≡ (
        not (has_control value)
        && not (contains (codes "\\") value)
        && valid_segments (split_slash value))
unfolding valid_path
valid_path_lem value = elim (Bool-cases (valid_segments (split_slash value))) [
  | inl fine ↦
      ground (arith, first_segment value fine, path_clean_valid value fine, text_eq_refl value)
  | inr bad ↦ ground arith
]
