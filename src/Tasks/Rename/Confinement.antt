-- ===== src/Tasks/Rename/Confinement.antt =====
-- Where planned files go (internal/tasks/rename/plan.go, planFiles).
use mathlib.Core.Path.{subst}
use jproxy_go.Common.{
  ℕ, ◌≡◌, refl, sym, ap, ◌⊎◌, inl, inr, true, false, ◌&&◌, List, [], ◌∷◌, ◌++◌, append_assoc, arith,
  ltb, ◌==◌, if◌then◌else◌, Bool-cases, length, drop, All, Text, codes, text_eq, starts_with,
  split_slash, join_slash, path_dir, path_base,
}
use jproxy_go.Tasks.Rename.{
  FileRename, valid_path, valid_name, all_but_last, new_path_of, PlanResult, add_rename, all_valid,
  plan_from, plan_files, invalid_path, in_place, planned,
}

-- A rename within the directory of the title, by a valid path.
pub record IsConfined (title : Text) (r : FileRename) : Type 0 where
  pub valid : valid_path r.new_path ≡ true
  pub inside : starts_with (title ++ codes "/") r.new_path ≡ true

starts_with-append : (p s : Text) → starts_with p (p ++ s) ≡ true
unfolding starts_with
starts_with-append [] s = refl
starts_with-append (c ∷ p) s = ground (arith, starts_with-append p s)

starts_with_slash : (title s : Text) → starts_with (title ++ codes "/") (title ++ 47 ∷ s) ≡ true
starts_with_slash title s =
    subst (λ t. starts_with (title ++ codes "/") t ≡ true) (append_assoc title (codes "/") s)
      (starts_with-append (title ++ codes "/") s)

new_path_inside :
    (title : Text) (segments : List Text) (name : Text)
    → starts_with (title ++ codes "/") (new_path_of title segments name) ≡ true
unfolding new_path_of
new_path_inside title segments name = elim (Bool-cases (length segments == 1)) [
  | inl one ↦ ground (arith, starts_with_slash title name)
  | inr more ↦ ground (
    arith,
    starts_with_slash title (
        join_slash (all_but_last (drop 1 segments))
        ++ (if ltb 2 (length segments) then codes "/" else [])
        ++ name),
  )
]

abbrev pub old_paths : List FileRename → List Text
old_paths [] = []
old_paths (r ∷ rs) = r.old_path ∷ old_paths rs

-- A plan has the files in order, and every rename is confined.
abbrev pub IsPlan : Text → List Text → PlanResult → Type 0
IsPlan title files invalid_path = Unit
IsPlan title files in_place = Unit
IsPlan title files (planned rs) = (old_paths rs ≡ files) × All (IsConfined title) rs

add_rename-IsPlan :
    (title : Text) (files : List Text) (r : FileRename) (rest : PlanResult)
    → IsConfined title r
    → IsPlan title files rest
    → IsPlan title (r.old_path ∷ files) (add_rename r rest)
add_rename-IsPlan title files r invalid_path c h = tt
add_rename-IsPlan title files r in_place c h = tt
add_rename-IsPlan title files r (planned rs) c h = (ap (λ xs. r.old_path ∷ xs) h.0, (c, h.1))

plan_from-IsPlan :
    (make_name : Text → ℕ → Text × ℕ) (title : Text) (n : ℕ) (files : List Text)
    → IsPlan title files (plan_from make_name title n files)
unfolding plan_from
plan_from-IsPlan make_name title n [] = (refl, tt)
plan_from-IsPlan make_name title n (old ∷ files) =
    let made = make_name (path_base old) n in
    let path = new_path_of title (split_slash old) made.0 in
    elim (Bool-cases (text_eq (path_dir old) title)) [
      | inl same_dir ↦ rw same_dir tt
      | inr other_dir ↦ elim (Bool-cases (valid_path path)) [
        | inr refused ↦ rw other_dir (rw refused tt)
        | inl valid ↦ rw other_dir (
            rw valid (
              add_rename-IsPlan title files (record { old_path = old; new_path = path })
                (plan_from make_name title made.1 files)
                (record { valid = valid; inside = new_path_inside title (split_slash old) made.0 })
                (plan_from-IsPlan make_name title made.1 files)))
      ]
    ]

plan_files_refused :
    (make_name : Text → ℕ → Text × ℕ) (title : Text) (files : List Text)
    → (valid_name title && all_valid files) ≡ false
    → plan_files make_name title files ≡ invalid_path
unfolding plan_files
plan_files_refused make_name title files bad = ground arith

plan_files_accepted :
    (make_name : Text → ℕ → Text × ℕ) (title : Text) (files : List Text)
    → (valid_name title && all_valid files) ≡ true
    → plan_files make_name title files ≡ plan_from make_name title 1 files
unfolding plan_files
plan_files_accepted make_name title files fine = ground arith

-- Whatever names are made: a plan renames all files, in their order, each to a valid path (relative, and
-- with no empty or dot segment) in the directory of the title. A title or a file that is not valid is an
-- error.
pub plan_files-IsPlan :
    (make_name : Text → ℕ → Text × ℕ) (title : Text) (files : List Text)
    → IsPlan title files (plan_files make_name title files)
      × (((valid_name title && all_valid files) ≡ true)
          ⊎ (plan_files make_name title files ≡ invalid_path))
plan_files-IsPlan make_name title files = elim (Bool-cases (valid_name title && all_valid files)) [
  | inl fine ↦ (
    subst (IsPlan title files) (sym (plan_files_accepted make_name title files fine))
        (plan_from-IsPlan make_name title 1 files),
    inl fine,
  )
  | inr bad ↦ (
    subst (IsPlan title files) (sym (plan_files_refused make_name title files bad)) tt,
    inr (plan_files_refused make_name title files bad),
  )
]
