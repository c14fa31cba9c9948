-- ===== src/Sync/Tree.antt =====
-- The trees of es3/sync.cpp and es3/connection.h: `local_dir` and `s3_directory`.
use extremes.Base.{
  Bool, true, false, [], ◌∷◌, ◌++◌, Option, none, some, Bytes, codes, ◌==◌, if◌then◌else◌, ◌=k◌,
  bytes_key, bytes_cmp, ◌||◌,
}
use extremes.Base.Map.{Map}
use Prim.Native.Nat.{Ordering}

-- `s3_path`
pub record S3Path : Type 0 where
  pub zone : Bytes
  pub bucket : Bytes
  pub path : Bytes

-- A `local_file` with its `unsyncable_`, or an `s3_file`.
pub record Entry (P X : Type 0) : Type 0 where
  pub absolute_name : P
  pub name : Bytes
  pub info : X

-- The template parameters `dir_ptr_t` and `file_ptr_t`: a directory with its absolute name, its name,
-- `files_` and `subdirs_`; the second type is the map `subdirs_`.
mutual
  pub data Dir (P X : Type 0) : Type 0 where
    dir : P → Bytes → Map Bytes (Entry P X) → Dirs P X → Dir P X

  pub data Dirs (P X : Type 0) : Type 0 where
    no_dirs : Dirs P X
    subdir : Bytes → Dir P X → Dirs P X → Dirs P X

abbrev pub LocalDir : Type 0
LocalDir = Dir Bytes Bool

abbrev pub S3Directory : Type 0
S3Directory = Dir S3Path Unit

module _ {P X : Type 0} where
  abbrev pub absolute_name_of : Dir P X → P
  absolute_name_of (dir a n fs ds) = a

  abbrev pub name_of : Dir P X → Bytes
  name_of (dir a n fs ds) = n

  abbrev pub files_of : Dir P X → Map Bytes (Entry P X)
  files_of (dir a n fs ds) = fs

  abbrev pub subdirs_of : Dir P X → Dirs P X
  subdirs_of (dir a n fs ds) = ds

  abbrev pub is_empty : Dirs P X → Bool
  is_empty no_dirs = true
  is_empty (subdir k d ds) = false

  -- `subdirs_.find`, `subdirs_[name] = d` and `subdirs_.erase`.
  unfoldable pub find_dir : Bytes → Dirs P X → Option (Dir P X)
  find_dir k no_dirs = none
  find_dir k (subdir j d ds) = if k =k j then some d else find_dir k ds

  unfoldable pub insert_dir : Bytes → Dir P X → Dirs P X → Dirs P X
  insert_dir k new no_dirs = subdir k new no_dirs
  insert_dir k new (subdir j d ds) = elim (bytes_cmp k j) [
    | Ordering.lt ↦ subdir k new (subdir j d ds)
    | Ordering.eq ↦ subdir j new ds
    | Ordering.gt ↦ subdir j d (insert_dir k new ds)
  ]

  unfoldable pub erase_dir : Bytes → Dirs P X → Dirs P X
  erase_dir k no_dirs = no_dirs
  erase_dir k (subdir j d ds) = if k =k j then ds else subdir j d (erase_dir k ds)

-- `find(" ")!=npos`
abbrev pub has_space : Bytes → Bool
has_space [] = false
has_space (c ∷ s) = c == b' ' || has_space s

-- `*path.rbegin()=='/'`; on an empty string, which the program does not build, false.
abbrev pub ends_in_slash : Bytes → Bool
ends_in_slash [] = false
ends_in_slash (c ∷ []) = c == b'/'
ends_in_slash (c ∷ d ∷ s) = ends_in_slash (d ∷ s)

abbrev pub starts_with_slash : Bytes → Bool
starts_with_slash [] = false
starts_with_slash (c ∷ s) = c == b'/'

-- `derive`
unfoldable pub derive : S3Path → Bytes → S3Path
derive left [] = left
derive left (c ∷ right) =
    if ends_in_slash left.path || c == b'/'
    then record left { path = left.path ++ c ∷ right }
    else record left { path = left.path ++ codes "/" ++ c ∷ right }

-- `boost::filesystem::path::operator/` on a name that does not begin with a slash.
abbrev pub slash : Bytes → Bytes → Bytes
slash base name = if ends_in_slash base then base ++ name else base ++ codes "/" ++ name
