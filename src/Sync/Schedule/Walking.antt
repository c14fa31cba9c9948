-- ===== src/Sync/Schedule/Walking.antt =====
-- es3/sync.cpp: the tasks that list the directories below a directory fill in the whole tree.
use extremes.Base.{ℕ, zero, suc, ◌+◌, ◌≤◌, ◌≡◌, refl, [], false, Option, some, Bytes, arith}
use extremes.Sync.Tree.{S3Path, Dirs, dir, no_dirs, subdir, S3Directory, subdirs_of}
use extremes.Sync.Schedule.{Lister, walk_each, walk_below, list_subdir, with_subdirs}

-- A directory as its parent's listing leaves it, and what its own listing puts into it.
abbrev pub emptied : S3Directory → S3Directory
emptied (dir a n fs ds) = dir a n [] no_dirs

abbrev pub all_emptied : Dirs S3Path Unit → Dirs S3Path Unit
all_emptied no_dirs = no_dirs
all_emptied (subdir k d ds) = subdir k (emptied d) (all_emptied ds)

unfoldable mutual
  pub num_dirs : S3Directory → ℕ
  num_dirs (dir a n fs ds) = suc (num_subdirs ds)

  pub num_subdirs : Dirs S3Path Unit → ℕ
  num_subdirs no_dirs = 0
  num_subdirs (subdir k d ds) = num_dirs d + num_subdirs ds

-- The listings of a tree: each directory of it gets its files and its subdirectories, still empty.
unfoldable mutual
  pub Lists : Lister → S3Directory → Type 0
  Lists list (dir a n fs ds) =
      (list (dir a n [] no_dirs) ≡ (dir a n fs (all_emptied ds), false)) × ListsAll list ds

  pub ListsAll : Lister → Dirs S3Path Unit → Type 0
  ListsAll list no_dirs = Unit
  ListsAll list (subdir k d ds) = Lists list d × ListsAll list ds

walk_each-subdir :
    (f : S3Directory → Option (S3Directory × ℕ)) (k : Bytes) (d d' : S3Directory)
    (ds ds' : Dirs S3Path Unit)
    → f d ≡ some (d', 0)
    → walk_each f ds ≡ some (ds', 0)
    → walk_each f (subdir k d ds) ≡ some (subdir k d' ds', 0)
unfolding walk_each
walk_each-subdir f k d d' ds ds' e h = rw (walk_each, e, h) refl

walk_below-done :
    (f : S3Directory → Option (S3Directory × ℕ)) (d : S3Directory) (ds : Dirs S3Path Unit)
    → walk_each f (subdirs_of d) ≡ some (ds, 0)
    → walk_below f (d, false) ≡ some (with_subdirs ds d, 0)
unfolding walk_below
walk_below-done f d ds e = rw (walk_below, e) refl

module _ (list : Lister) where
  walk_each-all :
      (fuel : ℕ)
      → ((d : S3Directory)
          → num_dirs d ≤ fuel
          → Lists list d
          → list_subdir fuel list (emptied d) ≡ some (d, 0))
      → (ds : Dirs S3Path Unit) → num_subdirs ds ≤ fuel
      → ListsAll list ds
      → walk_each (list_subdir fuel list) (all_emptied ds) ≡ some (ds, 0)
  unfolding walk_each num_dirs Lists
  walk_each-all fuel each no_dirs enough h = refl
  walk_each-all fuel each (subdir k d ds) enough h =
      walk_each-subdir (list_subdir fuel list) k (emptied d) d (all_emptied ds) ds
        (each d (omega (arith, enough)) h.0)
        (walk_each-all fuel each ds (omega (arith, enough)) h.1)

  -- Where every listing of a tree succeeds, the tasks that start at its root and lead to one another
  -- put together exactly that tree, and none of them fails; fuel for the number of the directories is
  -- enough.
  list_subdir-Lists :
      (fuel : ℕ) (d : S3Directory)
      → num_dirs d ≤ fuel
      → Lists list d
      → list_subdir fuel list (emptied d) ≡ some (d, 0)
  unfolding list_subdir num_dirs Lists
  list_subdir-Lists zero (dir a n fs ds) enough h = absurd (omega (arith, enough))
  list_subdir-Lists (suc fuel) (dir a n fs ds) enough h = rw h.0 (
      walk_below-done (list_subdir fuel list) (dir a n fs (all_emptied ds)) ds
        (walk_each-all fuel (list_subdir-Lists fuel) ds (omega (arith, enough)) h.1))
