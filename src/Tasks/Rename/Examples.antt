-- ===== src/Tasks/Rename/Examples.antt =====
-- Plans for a torrent of one video.
use jproxy_go.Common.{
  ℕ, ◌≡◌, refl, ◌⊎◌, true, false, ◌&&◌, not, [], ◌∷◌, Text, codes, text_eq, is_control, has_control,
  starts_with, index, contains, last_index, split_from, split_slash, join_slash, clean_segments,
  path_clean, after_slash, up_to_slash, path_dir, trim_slashes, path_base,
}
use jproxy_go.Tasks.Rename.Paths.{valid_path_lem}
use jproxy_go.Tasks.Rename.{
  valid_segments, valid_path, valid_name, new_path_of, all_valid, plan_from, plan_files,
  invalid_path, planned,
}
use jproxy_go.Tasks.Rename.Confinement.{IsPlan, plan_files-IsPlan}

abbrev same_name : Text → ℕ → Text × ℕ
same_name name n = (name, n)

one_planned :
    plan_files same_name (codes "T") (codes "d/a.mkv" ∷ [])
    ≡ planned (record { old_path = codes "d/a.mkv"; new_path = codes "T/a.mkv" } ∷ [])
unfolding plan_files plan_from valid_name all_valid valid_path valid_segments split_slash split_from
    join_slash clean_segments path_clean path_dir path_base up_to_slash after_slash trim_slashes
    new_path_of starts_with contains index last_index has_control is_control text_eq
one_planned = refl

escape_refused : valid_path (codes "d/../../a") ≡ false
unfolding valid_path valid_segments split_slash split_from join_slash clean_segments path_clean
    starts_with contains index has_control is_control text_eq
escape_refused = refl

plan_files-IsPlan_example :
    IsPlan
      (codes "T")
      (codes "d/a.mkv" ∷ [])
      (plan_files same_name (codes "T") (codes "d/a.mkv" ∷ []))
    × (((valid_name (codes "T") && all_valid (codes "d/a.mkv" ∷ [])) ≡ true)
        ⊎ (plan_files same_name (codes "T") (codes "d/a.mkv" ∷ []) ≡ invalid_path))
plan_files-IsPlan_example = plan_files-IsPlan same_name (codes "T") (codes "d/a.mkv" ∷ [])

valid_path_lem_example : valid_path (codes "d/a.mkv") ≡ (
    not (has_control (codes "d/a.mkv"))
    && not (contains (codes "\\") (codes "d/a.mkv"))
    && valid_segments (split_slash (codes "d/a.mkv")))
valid_path_lem_example = valid_path_lem (codes "d/a.mkv")
