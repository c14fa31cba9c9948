-- ===== src/Tests/Trees.antt =====
-- Runs of es3/sync.cpp and es3/mimes.cpp.
use extremes.Base.{◌≡◌, refl, Bool, true, false, [], ◌∷◌, none, some, Bytes, codes, bytes_cmp}
use extremes.Base.{All, bytes_key}
use extremes.Base.Map.{Map, find, upsert}
use extremes.Sync.Merge.{merge_files, merged}
use extremes.Sync.Merging.{merge_files-find}
use extremes.Mimes.{find_mime, init_mimes, assign, default_mime}
use extremes.Sync.Tree.{S3Path, Entry, dir, no_dirs, subdir, LocalDir, S3Directory, derive}
use extremes.Sync.Included.{Settings, file_uploader}
use extremes.Sync.Uploads.{process_upload}
use extremes.Sync.Downloads.{process_downloads}
use extremes.Sync.Plans.{Only}
use extremes.Sync.Safety.{
  IsUpload, IsDownload, process_upload-IsUpload, process_downloads-IsDownload,
}
use extremes.Sync.Fresh.{no_patterns, to_send, process_upload-to_send}

abbrev jpg : Bytes
jpg = codes ".jpg"

-- The line for this extension has a space behind it.
jpg_missing : find_mime (init_mimes []) jpg ≡ default_mime
unfolding find_mime init_mimes assign find upsert bytes_cmp
jpg_missing = refl

abbrev notes : Entry Bytes Bool
notes = record { absolute_name = codes "/home/a/notes"; name = codes "notes"; info = false }

abbrev link : Entry Bytes Bool
link = record { absolute_name = codes "/home/a/sub/link"; name = codes "link"; info = true }

abbrev sub : LocalDir
sub = dir (codes "/home/a/sub") (codes "sub") ((codes "link", link) ∷ []) no_dirs

abbrev home : LocalDir
home =
    dir (codes "/home/a") (codes "a") ((codes "notes", notes) ∷ [])
      (subdir (codes "sub") sub no_dirs)

abbrev bucket : S3Path
bucket = record { zone = codes "s3"; bucket = codes "box"; path = codes "/" }

abbrev old : Entry S3Path Unit
old = record {
  absolute_name = record { zone = codes "s3"; bucket = codes "box"; path = codes "/old" };
  name = codes "old";
  info = tt;
}

abbrev remote : S3Directory
remote = dir bucket (codes "") ((codes "old", old) ∷ []) no_dirs

abbrev keeping : Settings
keeping = record { delete_missing = false; included = []; excluded = codes "*.tmp" ∷ [] }

process_upload-IsUpload_example :
    Only IsUpload (process_upload keeping home (some remote) bucket false)
process_upload-IsUpload_example =
    process_upload-IsUpload keeping home (some remote) bucket false refl

abbrev never_refused : Bytes → Bool
never_refused path = false

process_downloads-IsDownload_example :
    Only IsDownload
      (process_downloads never_refused keeping remote (some home) (codes "/home/a") false)
process_downloads-IsDownload_example =
    process_downloads-IsDownload never_refused keeping remote (some home) (codes "/home/a") false
      refl

process_upload-to_send_example :
    process_upload (no_patterns true) home none bucket false
    ≡ record { actions = to_send home bucket; stopped = none }
process_upload-to_send_example = process_upload-to_send true home bucket

one_upload :
    to_send home bucket ≡ file_uploader (codes "/home/a/notes") (derive bucket (codes "notes")) ∷ []
unfolding to_send
one_upload = refl

abbrev todo : Entry Bytes Bool
todo = record { absolute_name = codes "/mnt/todo"; name = codes "todo"; info = false }

abbrev left_files : Map Bytes (Entry Bytes Bool)
left_files = (codes "notes", notes) ∷ []

abbrev right_files : Map Bytes (Entry Bytes Bool)
right_files = (codes "todo", todo) ∷ []

abbrev both_files : Map Bytes (Entry Bytes Bool)
both_files = (codes "notes", notes) ∷ (codes "todo", todo) ∷ []

files_merge : merge_files left_files no_dirs right_files ≡ merged both_files
unfolding merge_files bytes_cmp
files_merge = refl

merge_files-find_example :
    ((k : Bytes) (f : Entry Bytes Bool) → find k left_files ≡ some f → find k both_files ≡ some f)
    × All (λ e. find e.1.name both_files ≡ some e.1) right_files
merge_files-find_example =
    merge_files-find Bytes Bool left_files right_files both_files no_dirs files_merge
