-- ===== src/Tasks/Rename.antt =====
-- internal/tasks/rename/plan.go: the plan for the files of a torrent. The expressions that tell videos and
-- subtitles are parameters of the names, and so is the formatter of internal/format.
pub mod Confinement
pub mod Paths
pub mod History
pub mod Service
mod Examples
use jproxy_go.Common.{
  ℕ, suc, Bool, true, false, ◌&&◌, ◌||◌, not, Option, none, some, List, [], ◌∷◌, ◌++◌, ltb, ◌==◌,
  if◌then◌else◌, length, drop, Text, codes, text_eq, has_control, is_empty, starts_with, index,
  contains, digits, split_slash, join_slash, path_clean, path_dir, path_base,
}

-- FileRename
pub record FileRename : Type 0 where
  pub old_path : Text
  pub new_path : Text

unfoldable pub valid_segments : List Text → Bool
valid_segments [] = true
valid_segments (x ∷ xs) =
    not (text_eq x (codes ".") || text_eq x (codes "..") || is_empty x) && valid_segments xs

unfoldable pub valid_path : Text → Bool
valid_path value =
    if is_empty value
      || has_control value
      || contains (codes "\\") value
      || starts_with (codes "/") value
      || not (text_eq (path_clean value) value)
    then false
    else valid_segments (split_slash value)

unfoldable pub valid_name : Text → Bool
valid_name value = valid_path value && not (contains (codes "/") value)

-- withSuffix
unfoldable pub with_suffix : Text → Text → Text
with_suffix name title = elim (index (codes " [") title) [
  | none ↦ name
  | some i ↦ name ++ drop i title
]

-- segments[1:len(segments)-1]
abbrev pub all_but_last : List Text → List Text
all_but_last [] = []
all_but_last (x ∷ []) = []
all_but_last (x ∷ y ∷ xs) = x ∷ all_but_last (y ∷ xs)

-- newPath
unfoldable pub new_path_of : Text → List Text → Text → Text
new_path_of title segments name =
    if length segments == 1
    then title ++ 47 ∷ name
    else title
      ++ 47
        ∷ (join_slash (all_but_last (drop 1 segments))
            ++ (if ltb 2 (length segments) then codes "/" else [])
            ++ name)

-- What planFiles returns: ErrInvalidPath, no renames and no error, or the renames.
pub data PlanResult : Type 0 where
  invalid_path : PlanResult
  in_place : PlanResult
  planned : List FileRename → PlanResult

abbrev pub add_rename : FileRename → PlanResult → PlanResult
add_rename r invalid_path = invalid_path
add_rename r in_place = in_place
add_rename r (planned rs) = planned (r ∷ rs)

unfoldable pub all_valid : List Text → Bool
all_valid [] = true
all_valid (x ∷ xs) = valid_path x && all_valid xs

module _ (make_name : Text → ℕ → Text × ℕ) (title : Text) where
  -- The second loop of planFiles.
  unfoldable pub plan_from : ℕ → List Text → PlanResult
  plan_from subtitle_number [] = planned []
  plan_from subtitle_number (old ∷ files) =
      let made = make_name (path_base old) subtitle_number in
      let path = new_path_of title (split_slash old) made.0 in
      let rest = plan_from made.1 files in
      if text_eq (path_dir old) title
      then in_place
      else if not (valid_path path)
      then invalid_path
      else add_rename (record { old_path = old; new_path = path }) rest

  -- planFiles
  unfoldable pub plan_files : List Text → PlanResult
  plan_files files =
      if not (valid_name title && all_valid files) then invalid_path else plan_from 1 files

-- radarrName, with videoOrSubtitle and subtitle as parameters; the first gives the extension.
unfoldable pub radarr_name : (Text → Option Text) → (Text → Bool) → Text → Text → ℕ → Text × ℕ
radarr_name extension_of is_subtitle title old_name subtitle_number = elim (extension_of old_name) [
  | none ↦ (old_name, subtitle_number)
  | some extension ↦
      if is_subtitle extension
      then (
        with_suffix title title ++ 46 ∷ digits subtitle_number ++ extension,
        suc subtitle_number,
      )
      else (with_suffix title title ++ extension, subtitle_number)
]
