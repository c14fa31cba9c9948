-- ===== src/Sync/Local.antt =====
-- es3/sync.cpp: `check_entry` and `build_local_dir`, which read a directory of the disk.
pub mod Spaces
use extremes.Base.{
  bytes_key, Bool, true, false, not, ◌&&◌, [], Bytes, if◌then◌else◌, ◌≡◌, refl, ◌||◌, ◌==◌, ◌∷◌,
  ◌++◌, codes,
}
use extremes.Base.Map.{insert}
use extremes.Errors.{Result, ok, throw, std_exception}
use extremes.Connection.Listing.{extract_leaf}
use extremes.Sync.Tree.{
  Entry, dir, no_dirs, insert_dir, LocalDir, has_space, slash, ends_in_slash, files_of, subdirs_of,
}

-- `status().type()`, which follows a symbolic link.
pub data FileType : Type 0 where
  directory_file regular_file other_file : FileType

-- An entry of the disk: its name, its type, whether it is a symbolic link, and what it holds.
mutual
  pub data DiskEntry : Type 0 where
    disk_entry : Bytes → FileType → Bool → DiskEntries → DiskEntry

  pub data DiskEntries : Type 0 where
    no_entries : DiskEntries
    entry : DiskEntry → DiskEntries → DiskEntries

abbrev pub is_directory : FileType → Bool
is_directory directory_file = true
is_directory regular_file = false
is_directory other_file = false

abbrev pub is_regular : FileType → Bool
is_regular directory_file = false
is_regular regular_file = true
is_regular other_file = false

-- `parent->files_[name] = file`, with `unsyncable_`.
abbrev pub add_local_file : Bytes → Bytes → Bool → LocalDir → LocalDir
add_local_file path name unsyncable (dir a n fs ds) =
    dir a n (insert name (record { absolute_name = path; name = name; info = unsyncable }) fs) ds

-- `parent->subdirs_[name] = target`
abbrev pub add_local_dir : Bytes → LocalDir → LocalDir → LocalDir
add_local_dir name target (dir a n fs ds) = dir a n fs (insert_dir name target ds)

-- `check_entry` for the entries of the directory `base`.
unfoldable mutual
  pub check_entry : Bytes → DiskEntry → LocalDir → LocalDir
  check_entry base (disk_entry name type is_link children) parent =
      let path = slash base name in
      if has_space path
      then parent
      else if is_directory type && not is_link
      then add_local_dir name (check_entries path children (dir path name [] no_dirs)) parent
      else add_local_file path name (not (is_regular type && not is_link)) parent

  pub check_entries : Bytes → DiskEntries → LocalDir → LocalDir
  check_entries base no_entries parent = parent
  check_entries base (entry e es) parent = check_entries base es (check_entry base e parent)

-- `build_local_dir` for the entry `start` of the directory `base`, an absolute path; `slashed` says
-- that the path was given with a slash at its end. `directory_iterator` throws on what is no directory.
unfoldable pub build_local_dir : Bytes → DiskEntry → Bool → Bool → Result LocalDir
unfolding check_entry check_entries
build_local_dir base (disk_entry name type is_link children) slashed upload =
    let start = slash base name in
    if not slashed && upload
    then ok (
        check_entry base (disk_entry name type is_link children)
          (dir base (extract_leaf base) [] no_dirs))
    else if is_directory type
    then ok (check_entries start children (dir start name [] no_dirs))
    else throw std_exception
