-- ===== src/Sync/Fresh.antt =====
-- What an upload does against a remote side that is not there yet.
use extremes.Base.{
  ◌≡◌, refl, ap, ap₂, ◌∙◌, Bool, true, false, not, ◌&&◌, List, [], ◌∷◌, ◌++◌, none, Bytes,
  bytes_key, if◌then◌else◌, Bool-cases, inl, inr,
}
use mathlib.Core.List.{append-nil}
use extremes.Base.Map.{Map, find, erase}
use extremes.Sync.Tree.{
  S3Path, Entry, Dirs, dir, no_dirs, subdir, LocalDir, find_dir, erase_dir, files_of, subdirs_of,
  has_space, derive,
}
use extremes.Sync.Included.{
  Settings, Action, Plan, file_uploader, nothing, one, ◌then_do◌, check_included,
}
use extremes.Sync.Uploads.{
  checked, upload_file, upload_files, process_upload, upload_subdirs, delete_rest, delete_recursive,
  remote_files, remote_dirs, erase_files, erase_dirs, hide_files, hide_dirs, upload_unless_there,
}

-- The synchronizer without patterns.
abbrev pub no_patterns : Bool → Settings
no_patterns delete_missing = record {
  delete_missing = delete_missing;
  included = [];
  excluded = [];
}

-- A file that can be synchronized and has no space in its absolute name.
abbrev pub is_sent : Entry Bytes Bool → Bool
is_sent file = not file.info && not (has_space file.absolute_name)

abbrev pub files_to_send : Map Bytes (Entry Bytes Bool) → S3Path → List Action
files_to_send [] path = []
files_to_send ((_, file) ∷ files) path =
    if is_sent file
    then file_uploader file.absolute_name (derive path file.name) ∷ files_to_send files path
    else files_to_send files path

unfoldable mutual
  pub to_send : LocalDir → S3Path → List Action
  to_send (dir a n fs ds) path = files_to_send fs path ++ dirs_to_send ds path

  pub dirs_to_send : Dirs Bytes Bool → S3Path → List Action
  dirs_to_send no_dirs path = []
  dirs_to_send (subdir _ (dir a n fs ds) more) path =
      to_send (dir a n fs ds) (derive path n) ++ dirs_to_send more path

abbrev all_done : List Action → Plan
all_done actions = record { actions = actions; stopped = none }

if-not {ℓ} : {A : Type ℓ} (b : Bool) (x y : A) → (if b then x else y) ≡ (if not b then y else x)
if-not true x y = refl
if-not false x y = refl

if-false {ℓ} : {A : Type ℓ} {b : Bool} → b ≡ false → (x y : A) → (if b then x else y) ≡ y
if-false e x y = rw e refl

module _ (delete_missing : Bool) where
  abbrev set : Settings
  set = no_patterns delete_missing

  pub checked_lem :
      (name : Bytes) (p : Plan) → checked set name p ≡ (if has_space name then nothing else p)
  unfolding checked check_included
  checked_lem name p = elim (Bool-cases (has_space name)) [
    | inl spaced ↦ rw (spaced, checked) refl
    | inr plain ↦ rw (plain, checked) refl
  ]

  upload_file_lem :
      (file : Entry Bytes Bool) (path : S3Path)
      → upload_file set file none path false ≡ (
          if is_sent file
          then one (file_uploader file.absolute_name (derive path file.name))
          else nothing)
  unfolding upload_file find_dir upload_unless_there
  upload_file_lem file path = elim (Bool-cases file.info) [
    | inl skipped ↦ rw (skipped, upload_file) refl
    | inr synced ↦
        rw (synced, upload_file)
          (checked_lem file.absolute_name
              (one (file_uploader file.absolute_name (derive path file.name)))
            ∙ if-not (has_space file.absolute_name) nothing
                (one (file_uploader file.absolute_name (derive path file.name))))
  ]

  upload_files_lem :
      (files : Map Bytes (Entry Bytes Bool)) (path : S3Path)
      → upload_files set files none path false ≡ all_done (files_to_send files path)
  unfolding upload_files
  upload_files_lem [] path = refl
  upload_files_lem ((k, file) ∷ files) path =
      let rest = upload_files_lem files path in
      let joined = ap₂ ◌then_do◌ (upload_file_lem file path) rest in
      elim (Bool-cases (is_sent file)) [
        | inl sent ↦ joined ∙ rw sent refl
        | inr kept ↦ joined ∙ rw kept refl
      ]

  erase_files_nil :
      (files : Map Bytes (Entry Bytes Bool)) → erase_files files (remote_files none) ≡ []
  unfolding erase_files erase
  erase_files_nil [] = refl
  erase_files_nil ((k, file) ∷ files) = erase_files_nil files

  erase_dirs_nil : (ds : Dirs Bytes Bool) → erase_dirs ds (remote_files none) ≡ []
  unfolding erase_dirs erase
  erase_dirs_nil no_dirs = refl
  erase_dirs_nil (subdir k d ds) = erase_dirs_nil ds

  hide_files_nil :
      (files : Map Bytes (Entry Bytes Bool)) → hide_files files (remote_dirs none) ≡ no_dirs
  unfolding hide_files erase_dir
  hide_files_nil [] = refl
  hide_files_nil ((k, file) ∷ files) = hide_files_nil files

  hide_dirs_nil : (ds : Dirs Bytes Bool) → hide_dirs ds (remote_dirs none) ≡ no_dirs
  unfolding hide_dirs erase_dir
  hide_dirs_nil no_dirs = refl
  hide_dirs_nil (subdir k d ds) = hide_dirs_nil ds

  delete_rest_lem : (l : LocalDir) → delete_rest set l none ≡ nothing
  unfolding delete_rest delete_recursive
  delete_rest_lem l = elim (Bool-cases delete_missing) [
    | inl missing ↦
        rw
          (
            missing,
            erase_files_nil (files_of l),
            erase_dirs_nil (subdirs_of l),
            hide_files_nil (files_of l),
            hide_dirs_nil (subdirs_of l),
          )
          refl
    | inr kept ↦ rw kept refl
  ]

  mutual
    unfolding process_upload to_send find find_dir

    process_upload_lem :
        (l : LocalDir) (path : S3Path)
        → process_upload set l none path false ≡ all_done (to_send l path)
    process_upload_lem (dir a n fs ds) path =
        ap₂ ◌then_do◌ (ap₂ ◌then_do◌ (upload_files_lem fs path) (upload_subdirs_lem ds path))
          (delete_rest_lem (dir a n fs ds))
        ∙ ap all_done (append-nil (files_to_send fs path ++ dirs_to_send ds path))

    upload_subdirs_lem :
        (ds : Dirs Bytes Bool) (path : S3Path)
        → upload_subdirs set ds none path false ≡ all_done (dirs_to_send ds path)
    upload_subdirs_lem no_dirs path = refl
    upload_subdirs_lem (subdir k (dir a n fs ds) more) path =
        ap₂ ◌then_do◌ (process_upload_lem (dir a n fs ds) (derive path n))
          (upload_subdirs_lem more path)

-- Without patterns, outside the check mode and with no remote directory, with or without deletion, an
-- upload runs to its end, and what it does is to upload every file of the tree that can be
-- synchronized and has no space in its name, each once, in order, to the path that its place gives.
pub process_upload-to_send :
    (delete_missing : Bool) (l : LocalDir) (path : S3Path)
    → process_upload (no_patterns delete_missing) l none path false
      ≡ record { actions = to_send l path; stopped = none }
process_upload-to_send delete_missing l path = process_upload_lem delete_missing l path
