-- ===== src/Sync/Schedule.antt =====
-- es3/sync.cpp: the tasks that list the remote side, and `create_schedule` around all plans.
pub mod Failing
pub mod Walking
pub mod Removing
use extremes.Base.{
  ℕ, zero, suc, ◌+◌, ◌%◌, ◌^◌, Bool, true, false, not, ◌||◌, List, [], ◌∷◌, ◌++◌, Option, none,
  some, Bytes, ◌==◌, if◌then◌else◌,
}
use extremes.Sync.Tree.{
  S3Path, Dir, Dirs, dir, no_dirs, subdir, LocalDir, S3Directory, absolute_name_of, files_of,
  subdirs_of, is_empty,
}
use extremes.Sync.Merge.{MergeError, Merged, merged, refused, merge_to_left}
use extremes.Sync.Included.{Settings, Plan, nothing, null_pointer, stop, ◌then_do◌}
use extremes.Sync.Uploads.{delete_possibly_recursive, process_upload}
use extremes.Sync.Downloads.{process_downloads}

-- `list_files_shallow` into a directory, as the tasks see it once their tries are over: what is in the
-- directory then, and whether the task failed. A listing that fails leaves the pages before.
abbrev pub Lister : Type 0
Lister = S3Directory → S3Directory × Bool

abbrev pub with_subdirs : Dirs S3Path Unit → S3Directory → S3Directory
with_subdirs ds (dir a n fs old) = dir a n fs ds

-- One `list_subdir_task` for each subdirectory; the number counts the tasks that fail.
unfoldable pub walk_each :
    (S3Directory → Option (S3Directory × ℕ)) → Dirs S3Path Unit → Option (Dirs S3Path Unit × ℕ)
walk_each f no_dirs = some (no_dirs, 0)
walk_each f (subdir k d ds) = elim (f d) [
  | none ↦ none
  | some (d', m) ↦ elim (walk_each f ds) [
    | none ↦ none
    | some (ds', n) ↦ some (subdir k d' ds', m + n)
  ]
]

-- The subdirectories of a listed directory.
unfoldable pub walk_below :
    (S3Directory → Option (S3Directory × ℕ)) → S3Directory × Bool → Option (S3Directory × ℕ)
unfolding walk_each
walk_below f (d, true) = some (d, 1)
walk_below f (d, false) = elim (walk_each f (subdirs_of d)) [
  | none ↦ none
  | some (ds, n) ↦ some (with_subdirs ds d, n)
]

-- `list_subdir_task` with all tasks that it leads to; each of them fills a directory of its own. The
-- fuel is for the depth of the tree.
unfoldable pub list_subdir : ℕ → Lister → S3Directory → Option (S3Directory × ℕ)
unfolding walk_below
list_subdir zero list d = none
list_subdir (suc fuel) list d = walk_below (list_subdir fuel list) (list d)

-- `schedule_recursive_walk` of a listed root: its tree after the run, and the tasks that failed.
unfoldable pub schedule_recursive_walk : ℕ → Lister → S3Directory → Option (S3Directory × ℕ)
unfolding walk_below
schedule_recursive_walk fuel list cur_root = walk_below (list_subdir fuel list) (cur_root, false)

-- A round of `create_schedule`: what the `prepare_remote_list` tasks have pushed, in the order in
-- which they did, the number of tasks that failed in its run, and the tasks that are left.
pub record Round : Type 0 where
  pub lists : List S3Directory
  pub failed : ℕ
  pub left : ℕ

-- `for (int f=0;f<3;++f)`: `run` returns the failures of all runs so far, as an `int`.
unfoldable pub prepare : ℕ → List Round → Round → Round
prepare num_failed [] last = last
prepare num_failed (r ∷ rs) last =
    let later = prepare (num_failed + r.failed) rs r in
    if (num_failed + r.failed) % 2 ^ 32 == 0 then r else later

-- A chain of `merge_to_left`, from no directory on.
unfoldable pub merge_all :
    {P X : Type 0} → Option (Dir P X) → List (Dir P X) → Merged (Option (Dir P X))
unfolding merge_to_left
merge_all first [] = merged first
merge_all none (d ∷ ds) = merge_all (some d) ds
merge_all (some l) (d ∷ ds) = elim (merge_to_left l d) [
  | refused why ↦ refused why
  | merged both ↦ merge_all (some both) ds
]

-- What `create_schedule` comes to: its result and what it has done and scheduled, or the collision
-- that ends it. A plan that stops is an exception too.
pub data Scheduled : Type 0 where
  returns : Bool → Plan → Scheduled
  collides : MergeError → Scheduled

abbrev pub has_any : S3Directory → Bool
has_any d = (if noted (files_of d) then true else not (is_empty (subdirs_of d)))
  where
    noted : {A : Type 0} → List A → Bool
    noted [] = false
    noted (x ∷ xs) = true

unfoldable pub delete_all : Settings → List S3Directory → Bool → Plan
unfolding delete_possibly_recursive
delete_all set [] non_recursive = nothing
delete_all set (d ∷ ds) non_recursive =
    delete_possibly_recursive set d non_recursive then_do delete_all set ds non_recursive

abbrev pub no_round : Round
no_round = record { lists = []; failed = 0; left = 0 }

-- `refuses` says of which paths `mkdir` fails.
module _ (refuses : Bytes → Bool) where
  -- The end of `create_schedule`, with both sides; a null pointer is followed where a side is missing.
  unfoldable pub both_sides :
      Settings → Bool → Bool → Option LocalDir → Option S3Directory → Scheduled
  unfolding process_upload process_downloads
  both_sides set do_upload check_mode locals none = returns true (stop null_pointer)
  both_sides set do_upload check_mode none (some remotes) = returns true (stop null_pointer)
  both_sides set true check_mode (some locals) (some remotes) =
      returns true (process_upload set locals (some remotes) (absolute_name_of remotes) check_mode)
  both_sides set false check_mode (some locals) (some remotes) =
      returns (has_any remotes)
        (process_downloads refuses set remotes (some locals) (absolute_name_of locals) check_mode)

  -- What follows the listing.
  unfoldable pub schedule_listed :
      Settings → Bool → Bool → Bool → Bool → Option LocalDir → Round → Scheduled
  unfolding delete_all merge_all both_sides
  schedule_listed set do_upload check_mode delete_mode non_recursive locals r =
      if not (r.left == 0)
      then returns true nothing
      else if delete_mode
      then returns true (delete_all set r.lists non_recursive)
      else elim (merge_all none r.lists) [
        | refused why ↦ collides why
        | merged remotes ↦ both_sides set do_upload check_mode locals remotes
      ]

  -- `create_schedule`, with the local trees and the three rounds.
  unfoldable pub create_schedule :
      Settings → Bool → Bool → Bool → Bool → List LocalDir → Round → Round → Round → Scheduled
  unfolding merge_all prepare schedule_listed
  create_schedule set do_upload check_mode delete_mode non_recursive locals r0 r1 r2 =
      elim (merge_all none locals) [
        | refused why ↦ collides why
        | merged local ↦
            schedule_listed set do_upload check_mode delete_mode non_recursive local
              (prepare 0 (r0 ∷ r1 ∷ r2 ∷ []) no_round)
      ]
