-- ===== src/Sync/Uploads.antt =====
-- es3/sync.cpp: `delete_possibly_recursive` and `process_upload`.
use extremes.Base.{
  Bool, true, false, not, ◌&&◌, [], ◌∷◌, Option, none, some, Bytes, bytes_key, if◌then◌else◌,
}
use extremes.Base.Map.{Map, find, erase}
use extremes.Sync.Tree.{
  S3Path, Entry, Dirs, dir, no_dirs, subdir, LocalDir, S3Directory, name_of, files_of, subdirs_of,
  is_empty, find_dir, erase_dir, derive,
}
use extremes.Sync.Included.{
  Settings, Plan, null_pointer, not_recursive, nothing, one, stop, ◌then_do◌, if_included,
  check_included, file_uploader, remote_file_deleter,
}

-- `check_included` with the patterns of the synchronizer.
unfoldable pub checked : Settings → Bytes → Plan → Plan
unfolding if_included check_included
checked set name p = if_included (check_included name set.included set.excluded) p

unfoldable pub delete_files : Settings → Map Bytes (Entry S3Path Unit) → Plan
unfolding checked
delete_files set [] = nothing
delete_files set ((_, file) ∷ files) =
    checked set file.absolute_name.path (one (remote_file_deleter file.absolute_name))
    then_do delete_files set files

-- `delete_possibly_recursive(dir, false)`
unfoldable mutual
  unfolding delete_files

  pub delete_recursive : Settings → S3Directory → Plan
  delete_recursive set (dir a n fs ds) = delete_files set fs then_do delete_subdirs set ds

  pub delete_subdirs : Settings → Dirs S3Path Unit → Plan
  delete_subdirs set no_dirs = nothing
  delete_subdirs set (subdir _ d ds) = delete_recursive set d then_do delete_subdirs set ds

unfoldable pub delete_possibly_recursive : Settings → S3Directory → Bool → Plan
unfolding delete_recursive
delete_possibly_recursive set d non_recursive =
    if non_recursive && not (is_empty (subdirs_of d))
    then stop not_recursive
    else delete_recursive set d

abbrev pub remote_files : Option S3Directory → Map Bytes (Entry S3Path Unit)
remote_files none = []
remote_files (some r) = files_of r

abbrev pub remote_dirs : Option S3Directory → Dirs S3Path Unit
remote_dirs none = no_dirs
remote_dirs (some r) = subdirs_of r

-- `!check_mode || !remotes->files_.count(name)` around the task that uploads the file.
unfoldable pub upload_unless_there : Bool → Option S3Directory → Bytes → Plan → Plan
unfolding find
upload_unless_there false remotes name p = p
upload_unless_there true none name p = stop null_pointer
upload_unless_there true (some r) name p = elim (find name (files_of r)) [
  | none ↦ p
  | some _ ↦ nothing
]

-- The body of the loop over the local files, without the two `erase`.
unfoldable pub upload_file : Settings → Entry Bytes Bool → Option S3Directory → S3Path → Bool → Plan
unfolding checked delete_recursive find_dir derive upload_unless_there
upload_file set file remotes remote_path check_mode =
    let upload = one (file_uploader file.absolute_name (derive remote_path file.name)) in
    if file.info
    then nothing
    else checked set file.absolute_name (elim (find_dir file.name (remote_dirs remotes)) [
      | some d ↦ if set.delete_missing then delete_recursive set d then_do upload else nothing
      | none ↦ upload_unless_there check_mode remotes file.name upload
    ])

unfoldable pub upload_files :
    Settings → Map Bytes (Entry Bytes Bool) → Option S3Directory → S3Path → Bool → Plan
unfolding upload_file
upload_files set [] remotes remote_path check_mode = nothing
upload_files set ((_, file) ∷ files) remotes remote_path check_mode =
    upload_file set file remotes remote_path check_mode
    then_do upload_files set files remotes remote_path check_mode

-- `unseen` and `unseen_dirs` after both loops.
module _ {P X Y : Type 0} where
  unfoldable pub erase_files : Map Bytes (Entry P X) → Map Bytes Y → Map Bytes Y
  unfolding erase
  erase_files [] m = m
  erase_files ((_, file) ∷ files) m = erase_files files (erase file.name m)

  unfoldable pub erase_dirs : Dirs P X → Map Bytes Y → Map Bytes Y
  unfolding erase
  erase_dirs no_dirs m = m
  erase_dirs (subdir _ d ds) m = erase_dirs ds (erase (name_of d) m)

module _ {P Q X Y : Type 0} where
  unfoldable pub hide_files : Map Bytes (Entry P X) → Dirs Q Y → Dirs Q Y
  unfolding erase_dir
  hide_files [] ds = ds
  hide_files ((_, file) ∷ files) ds = hide_files files (erase_dir file.name ds)

  unfoldable pub hide_dirs : Dirs P X → Dirs Q Y → Dirs Q Y
  unfolding erase_dir
  hide_dirs no_dirs ds = ds
  hide_dirs (subdir _ d more) ds = hide_dirs more (erase_dir (name_of d) ds)

-- `remote_file_deleter` of each unseen file: `check_included` is not asked.
abbrev pub delete_unseen : Map Bytes (Entry S3Path Unit) → Plan
delete_unseen [] = nothing
delete_unseen ((_, file) ∷ files) =
    one (remote_file_deleter file.absolute_name) then_do delete_unseen files

-- The block at the end, under `delete_missing_`.
unfoldable pub delete_rest : Settings → LocalDir → Option S3Directory → Plan
unfolding delete_recursive erase_files erase_dirs hide_files hide_dirs
delete_rest set l remotes =
    if set.delete_missing
    then delete_unseen (erase_dirs (subdirs_of l) (erase_files (files_of l) (remote_files remotes)))
      then_do delete_subdirs set
          (hide_dirs (subdirs_of l) (hide_files (files_of l) (remote_dirs remotes)))
    else nothing

-- What becomes of a local directory, by `delete_missing_` and the remote file of its name: the plan
-- against no remote directory, the plan against the one of its name, and the rest of the loop.
abbrev pub place_dir : Bool → Option (Entry S3Path Unit) → Plan → Plan → Plan → Plan
place_dir delete_missing none alone inside rest = inside then_do rest
place_dir true (some file) alone inside rest =
    one (remote_file_deleter file.absolute_name) then_do alone then_do rest
place_dir false (some file) alone inside rest = rest

unfoldable mutual
  unfolding upload_files derive find find_dir delete_rest

  pub process_upload : Settings → LocalDir → Option S3Directory → S3Path → Bool → Plan
  process_upload set (dir a n fs ds) remotes remote_path check_mode =
      upload_files set fs remotes remote_path check_mode
      then_do upload_subdirs set ds remotes remote_path check_mode
      then_do delete_rest set (dir a n fs ds) remotes

  pub upload_subdirs : Settings → Dirs Bytes Bool → Option S3Directory → S3Path → Bool → Plan
  upload_subdirs set no_dirs remotes remote_path check_mode = nothing
  upload_subdirs set (subdir _ (dir a n fs ds) more) remotes remote_path check_mode =
      place_dir set.delete_missing (find n (remote_files remotes))
        (process_upload set (dir a n fs ds) none (derive remote_path n) check_mode)
        (process_upload set (dir a n fs ds) (find_dir n (remote_dirs remotes))
          (derive remote_path n) check_mode)
        (upload_subdirs set more remotes remote_path check_mode)
