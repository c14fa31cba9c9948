-- ===== src/Tests/Local.antt =====
-- Runs of `build_local_dir` of es3/sync.cpp.
use extremes.Base.{◌≡◌, refl, true, false, [], ◌∷◌, Bytes, codes, bytes_cmp}
use extremes.Sync.Included.{Settings}
use extremes.Sync.Local.{
  DiskEntries, disk_entry, no_entries, entry, directory_file, regular_file, build_local_dir,
}
use extremes.Errors.{ok}
use extremes.Sync.Tree.{S3Path, S3Directory, dir, no_dirs}
use extremes.Base.Map.{upsert}

abbrev files : DiskEntries
files =
    entry (disk_entry (codes "f") regular_file false no_entries)
      (entry (disk_entry (codes "g") regular_file true no_entries) no_entries)

-- A link is read as a file that is not synchronized.
reads :
    build_local_dir (codes "/home") (disk_entry (codes "d") directory_file false files) true true
    ≡ ok (
        dir
          (codes "/home/d")
          (codes "d")
          ((codes "f", record { absolute_name = codes "/home/d/f"; name = codes "f"; info = false })
            ∷ (
              codes "g",
              record { absolute_name = codes "/home/d/g"; name = codes "g"; info = true },
            )
            ∷ [])
          no_dirs)
unfolding build_local_dir upsert bytes_cmp
reads = refl

abbrev at_path : Bytes → S3Path
at_path path = record { zone = codes "s3"; bucket = codes "b"; path = path }

abbrev remote : S3Directory
remote =
    dir (at_path (codes "/")) []
      ((codes "f", record { absolute_name = at_path (codes "/f"); name = codes "f"; info = tt })
        ∷ [])
      no_dirs

abbrev deleting : Settings
deleting = record { included = []; excluded = []; delete_missing = true }
