-- ===== src/Commands/Objects.antt =====
-- es3/commands.cpp: `do_test`, `do_touch`, `do_du` and `do_ls` behind the check of their argument.
pub mod Descriptions
use extremes.Base.{
  ℕ, zero, suc, ◌+◌, ◌%◌, ◌^◌, Bool, true, false, not, ◌&&◌, ◌||◌, List, [], ◌∷◌, ◌++◌, Option,
  none, some, Bytes, codes, ltb, ◌==◌, if◌then◌else◌, length, bytes_cmp,
}
use Prim.Native.Nat.{Ordering}
use extremes.Base.Map.{Map}
use extremes.Commands.{StatStruct, get_size, locate}
use extremes.Common.{int_to_string}
use extremes.Connection.Listing.{FileInfo, Listed}
use extremes.Connection.Requests.{Environment, Outcome, done, failed, crashed, ◌>>=◌, begins_with}
use extremes.Connection.Transfers.{upload_data}
use extremes.Download.{FileDesc}
use extremes.Paths.{print_path}
use extremes.Sync.Tree.{
  S3Path, Entry, Dir, Dirs, dir, no_dirs, subdir, files_of, subdirs_of, is_empty,
}

abbrev pub no_files : Listed → Bool
no_files (dir a n [] ds) = is_empty ds
no_files (dir a n (f ∷ fs) ds) = false

-- `lists` is `list_files_shallow` from a path on, with its root; `exists` is `bf::exists`, and `touch`
-- the result of the command of that name.
module _ (env : Environment) (lists : S3Path → Outcome Listed) (exists : Bytes → Bool)
    (touch : Bytes → ℕ) where
  unfoldable pub do_test : List Bytes → Outcome ℕ
  unfolding locate
  do_test [] = done 2
  do_test (tgt ∷ other ∷ others) = done 2
  do_test (tgt ∷ []) =
      if begins_with (codes "s3://") tgt
      then (locate env tgt >>= λ path.
          lists path >>= λ found. done (if no_files found then 1 else 0))
      else done (if exists tgt then 0 else 1)

  unfoldable pub do_touch : (Bytes → Bytes) → List Bytes → Outcome ℕ
  unfolding locate upload_data
  do_touch md5 [] = done 2
  do_touch md5 (tgt ∷ other ∷ others) = done 2
  do_touch md5 (tgt ∷ []) =
      if begins_with (codes "s3://") tgt
      then (locate env tgt >>= λ path. lists path >>= λ found.
          if no_files found then (upload_data env md5 path [] 0 [] [] >>= λ _. done 0) else done 0)
      else done (touch tgt)

abbrev pub new_stat : StatStruct
new_stat = record { size = 0; file_num = 0; dir_num = 0; recent_timestamp = [] }

-- The text of `do_du`.
abbrev pub du_text : StatStruct → Bytes
du_text st =
    codes "Total files: "
    ++ int_to_string st.file_num
    ++ codes "\nTotal directories: "
    ++ int_to_string st.dir_num
    ++ codes "\nTotal size: "
    ++ int_to_string st.size
    ++ codes "\nMost recent timestamp: "
    ++ st.recent_timestamp
    ++ codes "\n"

-- An exit code and what is printed.
pub record Shown : Type 0 where
  pub code : ℕ
  pub text : Bytes

-- `do_du`: `walk` is the tree after the run of the listing tasks, the number of the tasks that failed
-- in it and of those that are left.
unfoldable pub do_du :
    Environment → (S3Path → Outcome (Listed × ℕ × ℕ)) → List Bytes → Outcome Shown
unfolding locate get_size
do_du env walk [] = done (record { code = 2; text = [] })
do_du env walk (tgt ∷ other ∷ others) = done (record { code = 2; text = [] })
do_du env walk (tgt ∷ []) = locate env tgt >>= λ path. walk path >>= λ walked.
    let (cur_root, failures, left) = walked in
    let res = failures % 2 ^ 32 in
    done (
      if not (res == 0)
      then record { code = res; text = [] }
      else if not (left == 0)
      then record { code = 4; text = [] }
      else record { code = 0; text = du_text (get_size cur_root new_stat) })

abbrev pub below : Bytes → Bytes → Bool
below a b = elim (bytes_cmp a b) [ Ordering.lt ↦ true | _ ↦ false ]

-- `s3_path::operator <`
unfoldable pub path_lt : S3Path → S3Path → Bool
path_lt left right =
    below left.zone right.zone || below left.bucket right.bucket || below left.path right.path

-- Keys that a map in this order takes for one.
abbrev pub is_same : S3Path → S3Path → Bool
is_same a b = not (path_lt a b) && not (path_lt b a)

-- `desc_map_[path_] = mod` and `desc_map.at(path)`, on keys among which the order is a strict one.
unfoldable pub put_desc : S3Path → FileDesc → List (S3Path × FileDesc) → List (S3Path × FileDesc)
unfolding path_lt
put_desc k v [] = (k, v) ∷ []
put_desc k v ((j, w) ∷ m) = if is_same k j then (j, v) ∷ m else (j, w) ∷ put_desc k v m

unfoldable pub at_desc : S3Path → List (S3Path × FileDesc) → Option FileDesc
unfolding path_lt
at_desc k [] = none
at_desc k ((j, w) ∷ m) = if is_same k j then some w else at_desc k m

-- What `do_ls` comes to: its text with the counts of files and the size in 64 bits, an exit code, or an
-- exception.
pub data Ls : Type 0 where
  shows : Bytes → ℕ → ℕ → Ls
  exits : ℕ → Ls
  throws : Ls

abbrev pub row : S3Path → FileDesc → Bytes
row path desc =
    int_to_string desc.mtime
    ++ codes "\t"
    ++ int_to_string desc.raw_size
    ++ codes "\t"
    ++ print_path path
    ++ codes "\n"

-- The loop over `cur->files_`, by where the descriptions come from.
unfoldable pub ls_files :
    (S3Path → Option FileDesc) → Map Bytes (Entry S3Path FileInfo) → Bytes → ℕ → ℕ → Ls
ls_files describe [] text files total = shows text files total
ls_files describe ((_, f) ∷ fs) text files total = elim (describe f.absolute_name) [
  | none ↦ throws
  | some desc ↦
      ls_files describe fs (text ++ row f.absolute_name desc) (files + 1)
        ((total + f.info.size) % 2 ^ 64)
]

unfoldable pub ls_dirs : Dirs S3Path FileInfo → Bytes
ls_dirs no_dirs = []
ls_dirs (subdir _ (dir abs n fs ds) more) =
    codes "\t\tDIR\t" ++ print_path abs ++ codes "\n" ++ ls_dirs more

-- The `get_file_info` tasks in the order in which they end, and the number of those that fail.
unfoldable pub get_file_infos :
    (S3Path → Option FileDesc)
    → List S3Path
    → List (S3Path × FileDesc)
    → List (S3Path × FileDesc) × ℕ
unfolding put_desc
get_file_infos info [] m = (m, 0)
get_file_infos info (p ∷ ps) m = elim (info p) [
  | none ↦ let (all, failures) = get_file_infos info ps m in (all, failures + 1)
  | some desc ↦ get_file_infos info ps (put_desc p desc m)
]

-- `do_ls` of a listed directory: `info` is `find_mtime_and_size`, where it does not throw, `order` the
-- order of the tasks, and `left` the number of tasks that are left after the run.
unfoldable pub do_ls : (S3Path → Option FileDesc) → List S3Path → ℕ → Listed → Ls
unfolding ls_files ls_dirs get_file_infos at_desc
do_ls info order left cur =
    let dirs = ls_dirs (subdirs_of cur) in
    let (descs, failures) = get_file_infos info order [] in
    if ltb 10 (length (files_of cur))
    then (if not (failures % 2 ^ 32 == 0)
        then exits (failures % 2 ^ 32)
        else if not (left == 0)
        then exits 4
        else ls_files (λ p. at_desc p descs) (files_of cur) dirs 0 0)
    else ls_files info (files_of cur) dirs 0 0
