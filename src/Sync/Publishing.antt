-- ===== src/Sync/Publishing.antt =====
-- es3/sync.cpp: the tasks that publish the files below a directory.
use extremes.Base.{
  ℕ, zero, suc, ◌+◌, ◌≤◌, ◌≡◌, refl, ap, ◌∙◌, Bool, true, false, List, [], ◌∷◌, ◌++◌, Option, none,
  some, Bytes, arith, if◌then◌else◌, Bool-cases, inl, inr,
}
use extremes.Base.Map.{Map}
use extremes.Glob.{ok, fail}
use extremes.Sync.Included.{check_included}
use extremes.Sync.Schedule.{Lister}
use extremes.Sync.Schedule.Walking.{emptied, all_emptied, num_dirs, num_subdirs, Lists, ListsAll}
use extremes.Sync.Tree.{
  S3Path, Entry, Dirs, dir, no_dirs, subdir, S3Directory, files_of, subdirs_of, has_space,
}

-- The files that have been published, which `*result_` counts, and the number of the tasks that failed.
pub record Published : Type 0 where
  pub files : List S3Path
  pub failed : ℕ

abbrev pub both : Published → Published → Published
both p q = record { files = p.files ++ q.files; failed = p.failed + q.failed }

abbrev pub none_published : Published
none_published = record { files = []; failed = 0 }

abbrev pub task_failed : Published
task_failed = record { files = []; failed = 1 }

-- `set_acl` in a `publish_file_task`, by whether it succeeds in the end.
abbrev pub set_public : Bool → S3Path → Published
set_public true path = record { files = path ∷ []; failed = 0 }
set_public false path = task_failed

module _ (included excluded : List Bytes) (acl : S3Path → Bool) (list : Lister) where
  -- `publish_file_task`
  unfoldable pub publish_file : S3Path → Published
  unfolding check_included
  publish_file path = elim (check_included path.path included excluded) [
    | fail why ↦ task_failed
    | ok false ↦ none_published
    | ok true ↦ set_public (acl path) path
  ]

  unfoldable pub publish_files : Map Bytes (Entry S3Path Unit) → Published
  unfolding publish_file
  publish_files [] = none_published
  publish_files ((_, f) ∷ files) = both (publish_file f.absolute_name) (publish_files files)

  unfoldable pub publish_each :
      (S3Directory → Option Published) → Dirs S3Path Unit → Option Published
  publish_each f no_dirs = some none_published
  publish_each f (subdir k d ds) = elim (f d) [
    | none ↦ none
    | some p ↦ elim (publish_each f ds) [ none ↦ none | some q ↦ some (both p q) ]
  ]

  -- What follows the listing: a task for each file and for each subdirectory.
  unfoldable pub publish_below :
      (S3Directory → Option Published) → S3Directory × Bool → Option Published
  unfolding publish_files publish_each
  publish_below f (d, true) = some task_failed
  publish_below f (d, false) = elim (publish_each f (subdirs_of d)) [
    | none ↦ none
    | some p ↦ some (both (publish_files (files_of d)) p)
  ]

  -- `publish_subdir_task` with the tasks that it leads to; the fuel is for the depth of the tree.
  unfoldable pub publish_subdir : ℕ → S3Directory → Option Published
  unfolding publish_below
  publish_subdir zero d = none
  publish_subdir (suc fuel) d = publish_below (publish_subdir fuel) (list d)

  -- `schedule_recursive_publication` of a listed root, with all tasks that follow.
  unfoldable pub schedule_recursive_publication : ℕ → S3Directory → Option Published
  unfolding publish_below
  schedule_recursive_publication fuel cur_root =
      publish_below (publish_subdir fuel) (cur_root, false)

-- The paths without a space, in the order of the maps.
abbrev pub plain_paths : Map Bytes (Entry S3Path Unit) → List S3Path
plain_paths [] = []
plain_paths ((_, f) ∷ files) =
    if has_space f.absolute_name.path
    then plain_paths files
    else f.absolute_name ∷ plain_paths files

unfoldable mutual
  pub plain_below : S3Directory → List S3Path
  plain_below (dir a n fs ds) = plain_paths fs ++ plain_in ds

  pub plain_in : Dirs S3Path Unit → List S3Path
  plain_in no_dirs = []
  plain_in (subdir k d ds) = plain_below d ++ plain_in ds

abbrev published : List S3Path → Published
published files = record { files = files; failed = 0 }

module _ (acl : S3Path → Bool) (list : Lister) (allowed : (path : S3Path) → acl path ≡ true) where
  publish_file_lem :
      (path : S3Path)
      → publish_file [] [] acl list path
        ≡ (if has_space path.path then none_published else published (path ∷ []))
  unfolding publish_file
  publish_file_lem path = elim (Bool-cases (has_space path.path)) [
    | inl spaced ↦ rw (spaced, publish_file) refl
    | inr plain ↦ rw (plain, publish_file) (let yes_ = allowed path in rw yes_ refl)
  ]

  publish_files_lem :
      (files : Map Bytes (Entry S3Path Unit))
      → publish_files [] [] acl list files ≡ published (plain_paths files)
  unfolding publish_files
  publish_files_lem [] = refl
  publish_files_lem ((k, f) ∷ files) =
      let e = publish_file_lem f.absolute_name in
      let rest = publish_files_lem files in
      let joined = ap (λ p. both p (publish_files [] [] acl list files)) e in
      elim (Bool-cases (has_space f.absolute_name.path)) [
        | inl spaced ↦ joined ∙ rw (spaced, rest) refl
        | inr plain ↦ joined ∙ rw (plain, rest) refl
      ]

  publish_each-subdir :
      (f : S3Directory → Option Published) (k : Bytes) (d : S3Directory) (ds : Dirs S3Path Unit)
      (p q : Published)
      → f d ≡ some p
      → publish_each [] [] acl list f ds ≡ some q
      → publish_each [] [] acl list f (subdir k d ds) ≡ some (both p q)
  unfolding publish_each
  publish_each-subdir f k d ds p q e h = rw (publish_each, e, h) refl

  publish_each-all :
      (fuel : ℕ)
      → ((d : S3Directory)
          → num_dirs d ≤ fuel
          → Lists list d
          → publish_subdir [] [] acl list fuel (emptied d) ≡ some (published (plain_below d)))
      → (ds : Dirs S3Path Unit) → num_subdirs ds ≤ fuel
      → ListsAll list ds
      → publish_each [] [] acl list (publish_subdir [] [] acl list fuel) (all_emptied ds)
        ≡ some (published (plain_in ds))
  unfolding publish_each num_dirs Lists plain_below
  publish_each-all fuel each no_dirs enough h = refl
  publish_each-all fuel each (subdir k d ds) enough h =
      publish_each-subdir (publish_subdir [] [] acl list fuel) k (emptied d) (all_emptied ds) _ _
        (each d (omega (arith, enough)) h.0)
        (publish_each-all fuel each ds (omega (arith, enough)) h.1)

  publish_below-done :
      (f : S3Directory → Option Published) (d : S3Directory) (p : Published)
      → publish_each [] [] acl list f (subdirs_of d) ≡ some p
      → publish_below [] [] acl list f (d, false)
        ≡ some (both (published (plain_paths (files_of d))) p)
  unfolding publish_below
  publish_below-done f d p e =
      let files = publish_files_lem (files_of d) in rw (publish_below, e, files) refl

  -- Without patterns, where every listing of a tree and every `set_acl` succeeds, the tasks that
  -- start at its root publish every file below it whose path has no space, each once, and no other;
  -- fuel for the number of the directories is enough.
  pub publish_subdir-plain_below :
      (fuel : ℕ) (d : S3Directory)
      → num_dirs d ≤ fuel
      → Lists list d
      → publish_subdir [] [] acl list fuel (emptied d)
        ≡ some (record { files = plain_below d; failed = 0 })
  unfolding publish_subdir num_dirs Lists plain_below
  publish_subdir-plain_below zero (dir a n fs ds) enough h = absurd (omega (arith, enough))
  publish_subdir-plain_below (suc fuel) (dir a n fs ds) enough h = rw h.0 (
      publish_below-done (publish_subdir [] [] acl list fuel) (dir a n fs (all_emptied ds))
        (published (plain_in ds))
        (publish_each-all fuel (publish_subdir-plain_below fuel) ds (omega (arith, enough)) h.1))
