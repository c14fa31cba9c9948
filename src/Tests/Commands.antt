-- ===== src/Tests/Commands.antt =====
-- Runs of es3/commands.cpp and es3/main.cpp.
use extremes.Base.{ℕ, ◌≡◌, ◌≢◌, ◌≤◌, ◌/◌, ◌%◌, ◌^◌, arith, List, [], ◌∷◌, All, Bytes, codes, length}
use extremes.Commands.{get_size}
use extremes.Commands.Totals.{files_below, dirs_below, total, latest, get_size-total}
use extremes.Connection.Listing.{Listed, FileInfo}
use extremes.Options.{pos, negsuc, Tuning, tune}
use extremes.Options.Limits.{tune-planned}
use extremes.Segments.{segment_count, parts, range}
use extremes.Sync.Tree.{S3Path, dir, no_dirs, subdir}
use extremes.Upload.{Pump, start_upload, planned, total_size, max_part_num}
use extremes.Upload.Plan.{segments_of, IsWithin}

abbrev at_path : Bytes → S3Path
at_path path = record { zone = codes "s3"; bucket = codes "b"; path = path }

abbrev info : ℕ → Bytes → FileInfo
info size mtime = record { size = size; mtime_str = mtime }

abbrev tree : Listed
tree =
    dir (at_path (codes "/")) []
      ((
        codes "x",
        record {
          absolute_name = at_path (codes "/x");
          name = codes "x";
          info = info 10 (codes "2013-02");
        },
      )
        ∷ [])
      (subdir (codes "d")
        (dir (at_path (codes "/d/")) (codes "d")
          ((
            codes "y",
            record {
              absolute_name = at_path (codes "/d/y");
              name = codes "y";
              info = info 5 (codes "2013-05");
            },
          )
            ∷ [])
          no_dirs)
        no_dirs)

get_size-total_example :
    get_size tree (record { size = 0; file_num = 0; dir_num = 0; recent_timestamp = [] }) ≡ record {
      size = total (files_below tree) % 2 ^ 64;
      file_num = length (files_below tree);
      dir_num = dirs_below tree;
      recent_timestamp = latest [] (files_below tree);
    }
get_size-total_example = get_size-total tree

abbrev given : Tuning
given = record {
  thread_num = pos 0;
  io_threads = negsuc 3;
  cpu_threads = pos 0;
  segment_size = pos 100;
  segments = pos 2;
}

abbrev sizes : List ℕ
sizes = 20_000_000 ∷ []

given-two : given.segments ≢ pos 1
given-two e = ground arith

given-fit : segment_count (total_size sizes) (tune 4 given).segment_size ≤ max_part_num
unfolding segment_count total_size tune
given-fit = omega arith

tune-planned_example :
    (pumps : List Pump) × (start_upload sizes
        (tune 4 given).segment_size
        (tune 4 given).num_io_bound
        (tune 4 given).max_segments
      ≡ planned (parts (total_size sizes) (tune 4 given).segment_size, pumps))
    × (segments_of pumps ≡ range 0 (parts (total_size sizes) (tune 4 given).segment_size))
    × All (IsWithin ((tune 4 given).max_segments / 2)) pumps
tune-planned_example = tune-planned 4 given sizes given-two given-fit
