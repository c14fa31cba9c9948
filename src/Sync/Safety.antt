-- ===== src/Sync/Safety.antt =====
-- What a synchronization without `delete_missing_` leaves alone.
use extremes.Base.{
  ◌≡◌, refl, Bool, true, false, [], ◌∷◌, Option, none, some, Bytes, bytes_key, Bool-cases, inl, inr,
  Option-cases,
}
use extremes.Base.Map.{Map, find}
use extremes.Sync.Tree.{
  S3Path, Entry, Dirs, dir, no_dirs, subdir, LocalDir, S3Directory, files_of, find_dir, slash,
  derive,
}
use extremes.Sync.Included.{
  Settings, Action, Plan, null_pointer, no_directory, file_uploader, remote_file_deleter,
  file_downloader, local_file_deleter, make_directory, delete_now, nothing, one,
}
use extremes.Sync.Uploads.{
  upload_unless_there, upload_file, upload_files, process_upload, upload_subdirs, delete_rest,
  remote_files, remote_dirs, place_dir,
}
use extremes.Sync.Downloads.{
  download_unless_there, download_file, download_files, process_downloads, download_subdirs,
  delete_unseen_local, has_dir, has_file, local_files, local_dirs, made, enter_dir,
}
use extremes.Sync.Plans.{Only, Only-nothing, Only-one, Only-stop, Only-then_do, Only-checked}

-- The start of an upload of a file.
abbrev pub IsUpload : Action → Type 0
IsUpload (file_uploader from to) = Unit
IsUpload (remote_file_deleter p) = ⊥
IsUpload (file_downloader to from delete_dir) = ⊥
IsUpload (local_file_deleter p) = ⊥
IsUpload (make_directory p) = ⊥
IsUpload (delete_now p) = ⊥

-- The start of a download that removes no directory, or a new directory.
abbrev pub IsDownload : Action → Type 0
IsDownload (file_uploader from to) = ⊥
IsDownload (remote_file_deleter p) = ⊥
IsDownload (file_downloader to from delete_dir) = delete_dir ≡ false
IsDownload (local_file_deleter p) = ⊥
IsDownload (make_directory p) = Unit
IsDownload (delete_now p) = ⊥

Only-place_dir :
    (o : Option (Entry S3Path Unit)) (delete_missing : Bool) (alone inside rest : Plan)
    → delete_missing ≡ false
    → Only IsUpload inside
    → Only IsUpload rest
    → Only IsUpload (place_dir delete_missing o alone inside rest)
Only-place_dir none delete_missing alone p q keeps inside rest =
    Only-then_do IsUpload _ _ inside rest
Only-place_dir (some file) true alone p q keeps inside rest = cc
Only-place_dir (some file) false alone p q keeps inside rest = rest

Only-enter_dir :
    (shadowed delete_missing : Bool) (path : Bytes) (making inside rest : Plan)
    → delete_missing ≡ false
    → Only IsDownload making
    → Only IsDownload inside
    → Only IsDownload rest
    → Only IsDownload (enter_dir shadowed delete_missing path making inside rest)
Only-enter_dir true true path m p q keeps making inside rest = cc
Only-enter_dir true false path m p q keeps making inside rest = rest
Only-enter_dir false delete_missing path m p q keeps making inside rest =
    Only-then_do IsDownload _ _ (Only-then_do IsDownload _ _ making inside) rest

module _ (set : Settings) (keeps : set.delete_missing ≡ false) where
  upload_unless_there-Only :
      (check_mode : Bool) (remotes : Option S3Directory) (name : Bytes) (p : Plan)
      → Only IsUpload p
      → Only IsUpload (upload_unless_there check_mode remotes name p)
  unfolding upload_unless_there
  upload_unless_there-Only false remotes name p h = h
  upload_unless_there-Only true none name p h = Only-stop IsUpload null_pointer
  upload_unless_there-Only true (some r) name p h = elim (Option-cases (find name (files_of r))) [
    | inl absent ↦ rw (absent, upload_unless_there) h
    | inr (f, there) ↦ rw (there, upload_unless_there) (Only-nothing IsUpload)
  ]

  upload_file-Only :
      (file : Entry Bytes Bool) (remotes : Option S3Directory) (path : S3Path) (check_mode : Bool)
      → Only IsUpload (upload_file set file remotes path check_mode)
  unfolding upload_file
  upload_file-Only file remotes path check_mode =
      let upload = one (file_uploader file.absolute_name (derive path file.name)) in
      elim (Bool-cases file.info) [
        | inl skipped ↦ rw (skipped, upload_file) (Only-nothing IsUpload)
        | inr synced ↦ elim (Option-cases (find_dir file.name (remote_dirs remotes))) [
          | inl free ↦
              rw (synced, free, upload_file)
                (Only-checked IsUpload set file.absolute_name _ (
                  upload_unless_there-Only check_mode remotes file.name upload
                    (Only-one IsUpload _ tt)))
          | inr (d, shadowed) ↦
              rw (synced, shadowed, keeps, upload_file)
                (Only-checked IsUpload set file.absolute_name nothing (Only-nothing IsUpload))
        ]
      ]

  upload_files-Only :
      (files : Map Bytes (Entry Bytes Bool)) (remotes : Option S3Directory) (path : S3Path)
      (check_mode : Bool)
      → Only IsUpload (upload_files set files remotes path check_mode)
  unfolding upload_files
  upload_files-Only [] remotes path check_mode = Only-nothing IsUpload
  upload_files-Only ((k, file) ∷ files) remotes path check_mode =
      Only-then_do IsUpload _ _ (upload_file-Only file remotes path check_mode)
        (upload_files-Only files remotes path check_mode)

  delete_rest-Only :
      (l : LocalDir) (remotes : Option S3Directory) → Only IsUpload (delete_rest set l remotes)
  unfolding delete_rest
  delete_rest-Only l remotes = rw keeps (Only-nothing IsUpload)

  mutual
    unfolding process_upload

    process_upload-Only :
        (l : LocalDir) (remotes : Option S3Directory) (path : S3Path) (check_mode : Bool)
        → Only IsUpload (process_upload set l remotes path check_mode)
    process_upload-Only (dir a n fs ds) remotes path check_mode =
        Only-then_do IsUpload _ _
          (Only-then_do IsUpload _ _ (upload_files-Only fs remotes path check_mode)
            (upload_subdirs-Only ds remotes path check_mode))
          (delete_rest-Only (dir a n fs ds) remotes)

    upload_subdirs-Only :
        (ds : Dirs Bytes Bool) (remotes : Option S3Directory) (path : S3Path) (check_mode : Bool)
        → Only IsUpload (upload_subdirs set ds remotes path check_mode)
    upload_subdirs-Only no_dirs remotes path check_mode = Only-nothing IsUpload
    upload_subdirs-Only (subdir k (dir a n fs ds) more) remotes path check_mode =
        Only-place_dir (find n (remote_files remotes)) set.delete_missing _ _ _ keeps
          (process_upload-Only (dir a n fs ds) (find_dir n (remote_dirs remotes)) (derive path n)
            check_mode)
          (upload_subdirs-Only more remotes path check_mode)

  download_unless_there-Only :
      (check_mode : Bool) (locals : Option LocalDir) (name : Bytes) (p : Plan)
      → Only IsDownload p
      → Only IsDownload (download_unless_there check_mode locals name p)
  unfolding download_unless_there
  download_unless_there-Only false locals name p h = h
  download_unless_there-Only true none name p h = Only-stop IsDownload null_pointer
  download_unless_there-Only true (some l) name p h =
      elim (Bool-cases (has_file name (files_of l))) [
        | inl there ↦ rw (there, download_unless_there) (Only-nothing IsDownload)
        | inr absent ↦ rw (absent, download_unless_there) h
      ]

  download_file-Only :
      (file : Entry S3Path Unit) (locals : Option LocalDir) (path : Bytes) (check_mode : Bool)
      → Only IsDownload (download_file set file locals path check_mode)
  unfolding download_file
  download_file-Only file locals path check_mode =
      elim (Bool-cases (has_dir file.name (local_dirs locals))) [
        | inl shadowed ↦
            rw (shadowed, keeps, download_file)
              (Only-checked IsDownload set file.absolute_name.path nothing
                (Only-nothing IsDownload))
        | inr free ↦
            rw (free, download_file)
              (Only-checked IsDownload set file.absolute_name.path _ (
                download_unless_there-Only check_mode locals file.name
                  (one (file_downloader (slash path file.name) file.absolute_name false))
                  (Only-one IsDownload _ refl)))
      ]

  download_files-Only :
      (files : Map Bytes (Entry S3Path Unit)) (locals : Option LocalDir) (path : Bytes)
      (check_mode : Bool)
      → Only IsDownload (download_files set files locals path check_mode)
  unfolding download_files
  download_files-Only [] locals path check_mode = Only-nothing IsDownload
  download_files-Only ((k, file) ∷ files) locals path check_mode =
      Only-then_do IsDownload _ _ (download_file-Only file locals path check_mode)
        (download_files-Only files locals path check_mode)

  delete_unseen_local-Only :
      (r : S3Directory) (locals : Option LocalDir)
      → Only IsDownload (delete_unseen_local set r locals)
  unfolding delete_unseen_local
  delete_unseen_local-Only r locals = rw keeps (Only-nothing IsDownload)

  module _ (refuses : Bytes → Bool) where
    made-Only :
        (new_dir : Option LocalDir) (path : Bytes) → Only IsDownload (made refuses new_dir path)
    made-Only (some l) path = Only-nothing IsDownload
    made-Only none path = elim (Bool-cases (refuses path)) [
      | inl off ↦ rw (off, made) (Only-stop IsDownload no_directory)
      | inr on ↦ rw (on, made) (Only-one IsDownload _ tt)
    ]

    mutual
      unfolding process_downloads

      process_downloads-Only :
          (r : S3Directory) (locals : Option LocalDir) (path : Bytes) (check_mode : Bool)
          → Only IsDownload (process_downloads refuses set r locals path check_mode)
      process_downloads-Only (dir a n fs ds) locals path check_mode =
          Only-then_do IsDownload _ _
            (Only-then_do IsDownload _ _ (download_files-Only fs locals path check_mode)
              (download_subdirs-Only ds locals path check_mode))
            (delete_unseen_local-Only (dir a n fs ds) locals)

      download_subdirs-Only :
          (ds : Dirs S3Path Unit) (locals : Option LocalDir) (path : Bytes) (check_mode : Bool)
          → Only IsDownload (download_subdirs refuses set ds locals path check_mode)
      download_subdirs-Only no_dirs locals path check_mode = Only-nothing IsDownload
      download_subdirs-Only (subdir k (dir a n fs ds) more) locals path check_mode =
          let new_dir = find_dir n (local_dirs locals) in
          Only-enter_dir (has_file n (local_files locals)) set.delete_missing _ _ _ _ keeps
            (made-Only new_dir (slash path n))
            (process_downloads-Only (dir a n fs ds) new_dir (slash path n) check_mode)
            (download_subdirs-Only more locals path check_mode)

-- Without `delete_missing_` an upload schedules nothing but uploads of files, whatever the two sides
-- hold, also up to where it stops.
pub process_upload-IsUpload :
    (set : Settings) (l : LocalDir) (remotes : Option S3Directory) (path : S3Path)
    (check_mode : Bool)
    → set.delete_missing ≡ false
    → Only IsUpload (process_upload set l remotes path check_mode)
process_upload-IsUpload set l remotes path check_mode keeps =
    process_upload-Only set keeps l remotes path check_mode

-- Without `delete_missing_` a download deletes nothing: it makes directories and schedules downloads,
-- none of which may remove a directory in its way.
pub process_downloads-IsDownload :
    (refuses : Bytes → Bool) (set : Settings) (r : S3Directory) (locals : Option LocalDir)
    (path : Bytes) (check_mode : Bool)
    → set.delete_missing ≡ false
    → Only IsDownload (process_downloads refuses set r locals path check_mode)
process_downloads-IsDownload refuses set r locals path check_mode keeps =
    process_downloads-Only set keeps refuses r locals path check_mode
