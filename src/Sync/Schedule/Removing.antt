-- ===== src/Sync/Schedule/Removing.antt =====
-- es3/sync.cpp: what `rm` schedules.
use extremes.Base.{
  ◌≡◌, refl, ap, ap₂, ◌∙◌, Bool, true, false, List, [], ◌∷◌, ◌++◌, none, Bytes, if◌then◌else◌,
  Bool-cases, inl, inr,
}
use extremes.Base.Map.{Map}
use extremes.Sync.Tree.{S3Path, Entry, Dirs, dir, no_dirs, subdir, S3Directory, has_space}
use extremes.Sync.Included.{Action, Plan, remote_file_deleter, one, ◌then_do◌}
use extremes.Sync.Fresh.{no_patterns, checked_lem}
use extremes.Sync.Uploads.{
  delete_files, delete_recursive, delete_subdirs, delete_possibly_recursive,
}
use extremes.Sync.Schedule.{Round, returns, delete_all, create_schedule}

-- The files of a directory whose paths have no space.
abbrev pub plain_files : Map Bytes (Entry S3Path Unit) → List Action
plain_files [] = []
plain_files ((_, file) ∷ files) =
    if has_space file.absolute_name.path
    then plain_files files
    else remote_file_deleter file.absolute_name ∷ plain_files files

unfoldable mutual
  pub to_remove : S3Directory → List Action
  to_remove (dir a n fs ds) = plain_files fs ++ dirs_to_remove ds

  pub dirs_to_remove : Dirs S3Path Unit → List Action
  dirs_to_remove no_dirs = []
  dirs_to_remove (subdir _ d ds) = to_remove d ++ dirs_to_remove ds

abbrev pub all_to_remove : List S3Directory → List Action
all_to_remove [] = []
all_to_remove (d ∷ ds) = to_remove d ++ all_to_remove ds

abbrev all_done : List Action → Plan
all_done actions = record { actions = actions; stopped = none }

module _ (delete_missing : Bool) where
  delete_files_lem :
      (files : Map Bytes (Entry S3Path Unit))
      → delete_files (no_patterns delete_missing) files ≡ all_done (plain_files files)
  unfolding delete_files
  delete_files_lem [] = refl
  delete_files_lem ((k, file) ∷ files) =
      let joined =
        ap₂ ◌then_do◌
          (checked_lem delete_missing file.absolute_name.path
            (one (remote_file_deleter file.absolute_name)))
          (delete_files_lem files) in
      elim (Bool-cases (has_space file.absolute_name.path)) [
        | inl spaced ↦ joined ∙ rw spaced refl
        | inr plain ↦ joined ∙ rw plain refl
      ]

  mutual
    unfolding delete_recursive to_remove

    delete_recursive_lem :
        (d : S3Directory) → delete_recursive (no_patterns delete_missing) d ≡ all_done (to_remove d)
    delete_recursive_lem (dir a n fs ds) =
        ap₂ ◌then_do◌ (delete_files_lem fs) (delete_subdirs_lem ds)

    delete_subdirs_lem :
        (ds : Dirs S3Path Unit)
        → delete_subdirs (no_patterns delete_missing) ds ≡ all_done (dirs_to_remove ds)
    delete_subdirs_lem no_dirs = refl
    delete_subdirs_lem (subdir k d ds) =
        ap₂ ◌then_do◌ (delete_recursive_lem d) (delete_subdirs_lem ds)

  delete_all_lem :
      (ds : List S3Directory)
      → delete_all (no_patterns delete_missing) ds false ≡ all_done (all_to_remove ds)
  unfolding delete_all delete_possibly_recursive
  delete_all_lem [] = refl
  delete_all_lem (d ∷ ds) = ap₂ ◌then_do◌ (delete_recursive_lem d) (delete_all_lem ds)

  -- A recursive `rm` without patterns, whose first round lists everything and leaves no task pending,
  -- deletes the files of the lists that it has made, list by list and each directory before its
  -- subdirectories: every file whose path has no space, as often as the lists hold it, and nothing else.
  pub create_schedule-to_remove :
      (refuses : Bytes → Bool) (do_upload check_mode : Bool) (r0 r1 r2 : Round)
      → r0.failed ≡ 0
      → r0.left ≡ 0
      → create_schedule refuses
          (no_patterns delete_missing)
          do_upload
          check_mode
          true
          false
          []
          r0
          r1
          r2
        ≡ returns true (all_done (all_to_remove r0.lists))
  unfolding create_schedule
  create_schedule-to_remove refuses do_upload check_mode r0 r1 r2 none_failed none_left =
      rw (none_failed, none_left) (ap (returns true) (delete_all_lem r0.lists))
