-- ===== src/Sync/Merge.antt =====
-- es3/sync.cpp: `merge_to_left`.
use extremes.Base.{[], ◌∷◌, none, some, Bytes, bytes_key}
use extremes.Base.Map.{Map, find, insert, upsert}
use extremes.Sync.Tree.{Entry, Dir, Dirs, dir, no_dirs, subdir, find_dir, insert_dir}

pub data MergeError : Type 0 where
  file_collision shadows_directory is_shadowed_by : MergeError

pub data Merged (A : Type 0) : Type 0 where
  merged : A → Merged A
  refused : MergeError → Merged A

module _ {P X : Type 0} where
  -- The loop over the files of the right side, into the files of a left side with these subdirs.
  unfoldable pub merge_files :
      Map Bytes (Entry P X) → Dirs P X → Map Bytes (Entry P X) → Merged (Map Bytes (Entry P X))
  unfolding find upsert find_dir
  merge_files left dirs [] = merged left
  merge_files left dirs ((_, file) ∷ right) = elim (find file.name left) [
    | some _ ↦ refused file_collision
    | none ↦ elim (find_dir file.name dirs) [
      | some _ ↦ refused shadows_directory
      | none ↦ merge_files (insert file.name file left) dirs right
    ]
  ]

  unfoldable mutual
    unfolding merge_files find find_dir insert_dir

    pub merge_to_left : Dir P X → Dir P X → Merged (Dir P X)
    merge_to_left (dir a n fs ds) (dir _ _ right_files right_dirs) =
        elim (merge_files fs ds right_files) [
          | refused why ↦ refused why
          | merged files ↦ elim (merge_dirs files ds right_dirs) [
            | refused why ↦ refused why
            | merged dirs ↦ merged (dir a n files dirs)
          ]
        ]

    pub merge_dirs : Map Bytes (Entry P X) → Dirs P X → Dirs P X → Merged (Dirs P X)
    merge_dirs files left no_dirs = merged left
    merge_dirs files left (subdir _ (dir b m fs ds) right) = elim (find m files) [
      | some _ ↦ refused is_shadowed_by
      | none ↦ elim (find_dir m left) [
        | none ↦ merge_dirs files (insert_dir m (dir b m fs ds) left) right
        | some l ↦ elim (merge_to_left l (dir b m fs ds)) [
          | refused why ↦ refused why
          | merged d ↦ merge_dirs files (insert_dir m d left) right
        ]
      ]
    ]
