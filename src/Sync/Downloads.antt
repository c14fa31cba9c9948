-- ===== src/Sync/Downloads.antt =====
-- es3/sync.cpp: `process_downloads`.
use extremes.Base.{
  Bool, true, false, not, ◌&&◌, [], ◌∷◌, Option, none, some, Bytes, bytes_key, if◌then◌else◌,
}
use extremes.Base.Map.{Map, find, upsert, insert}
use extremes.Sync.Tree.{
  S3Path, Entry, Dirs, dir, no_dirs, subdir, LocalDir, S3Directory, absolute_name_of, files_of,
  subdirs_of, find_dir, slash,
}
use extremes.Sync.Included.{
  Settings, Plan, null_pointer, no_directory, nothing, one, stop, ◌then_do◌, file_downloader,
  local_file_deleter, make_directory, delete_now,
}
use extremes.Sync.Uploads.{checked, erase_files, erase_dirs}

abbrev pub local_files : Option LocalDir → Map Bytes (Entry Bytes Bool)
local_files none = []
local_files (some l) = files_of l

abbrev pub local_dirs : Option LocalDir → Dirs Bytes Bool
local_dirs none = no_dirs
local_dirs (some l) = subdirs_of l

-- `count(name)`
abbrev pub has_dir : Bytes → Dirs Bytes Bool → Bool
has_dir name ds = elim (find_dir name ds) [ none ↦ false | some _ ↦ true ]

abbrev pub has_file : Bytes → Map Bytes (Entry Bytes Bool) → Bool
has_file name fs = elim (find name fs) [ none ↦ false | some _ ↦ true ]

-- `unseen`: the files and the directories of the local side, with their absolute names.
unfoldable pub unseen_files : Map Bytes (Entry Bytes Bool) → Map Bytes Bytes → Map Bytes Bytes
unfolding upsert
unseen_files [] m = m
unseen_files ((k, file) ∷ files) m = unseen_files files (insert k file.absolute_name m)

unfoldable pub unseen_dirs : Dirs Bytes Bool → Map Bytes Bytes → Map Bytes Bytes
unfolding upsert
unseen_dirs no_dirs m = m
unseen_dirs (subdir k d ds) m = unseen_dirs ds (insert k (absolute_name_of d) m)

abbrev pub delete_local : Map Bytes Bytes → Plan
delete_local [] = nothing
delete_local ((_, path) ∷ unseen) = one (local_file_deleter path) then_do delete_local unseen

-- `!check_mode || !locals->files_.count(name)` around the task that downloads the file.
unfoldable pub download_unless_there : Bool → Option LocalDir → Bytes → Plan → Plan
unfolding find
download_unless_there false locals name p = p
download_unless_there true none name p = stop null_pointer
download_unless_there true (some l) name p = if has_file name (files_of l) then nothing else p

-- The body of the loop over the remote files.
unfoldable pub download_file : Settings → Entry S3Path Unit → Option LocalDir → Bytes → Bool → Plan
unfolding checked find_dir download_unless_there
download_file set file locals local_path check_mode =
    let shadowed = has_dir file.name (local_dirs locals) in
    checked set file.absolute_name.path (
      if shadowed && not set.delete_missing
      then nothing
      else download_unless_there check_mode locals file.name
          (one (file_downloader (slash local_path file.name) file.absolute_name shadowed)))

unfoldable pub download_files :
    Settings → Map Bytes (Entry S3Path Unit) → Option LocalDir → Bytes → Bool → Plan
unfolding download_file
download_files set [] locals local_path check_mode = nothing
download_files set ((_, file) ∷ files) locals local_path check_mode =
    download_file set file locals local_path check_mode
    then_do download_files set files locals local_path check_mode

-- The block at the end, under `delete_missing_`.
unfoldable pub delete_unseen_local : Settings → S3Directory → Option LocalDir → Plan
unfolding unseen_files unseen_dirs erase_files erase_dirs
delete_unseen_local set r locals =
    if set.delete_missing
    then delete_local (
        erase_dirs (subdirs_of r) (
          erase_files (files_of r)
            (unseen_dirs (local_dirs locals) (unseen_files (local_files locals) []))))
    else nothing

-- `mkdir` with its check, where there is no local directory; `refuses` says of which paths the call
-- fails with another error than that the directory exists.
abbrev pub made : (Bytes → Bool) → Option LocalDir → Bytes → Plan
made refuses (some _) path = nothing
made refuses none path = if refuses path then stop no_directory else one (make_directory path)

-- What becomes of a remote directory, by whether a local file shadows it and by `delete_missing_`.
abbrev pub enter_dir : Bool → Bool → Bytes → Plan → Plan → Plan → Plan
enter_dir true false path making inside rest = rest
enter_dir true true path making inside rest =
    one (delete_now path) then_do making then_do inside then_do rest
enter_dir false delete_missing path making inside rest = making then_do inside then_do rest

module _ (refuses : Bytes → Bool) where
  unfoldable mutual
    unfolding download_files find find_dir delete_unseen_local

    pub process_downloads : Settings → S3Directory → Option LocalDir → Bytes → Bool → Plan
    process_downloads set (dir a n fs ds) locals local_path check_mode =
        download_files set fs locals local_path check_mode
        then_do download_subdirs set ds locals local_path check_mode
        then_do delete_unseen_local set (dir a n fs ds) locals

    pub download_subdirs : Settings → Dirs S3Path Unit → Option LocalDir → Bytes → Bool → Plan
    download_subdirs set no_dirs locals local_path check_mode = nothing
    download_subdirs set (subdir _ (dir a n fs ds) more) locals local_path check_mode =
        let new_dir = find_dir n (local_dirs locals) in
        enter_dir (has_file n (local_files locals)) set.delete_missing (slash local_path n)
          (made refuses new_dir (slash local_path n))
          (process_downloads set (dir a n fs ds) new_dir (slash local_path n) check_mode)
          (download_subdirs set more locals local_path check_mode)
