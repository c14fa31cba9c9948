-- ===== src/Commands.antt =====
-- es3/commands.cpp: the commands behind their options, which the option parser has read.
pub mod Rounds
pub mod Totals
pub mod Cat
pub mod Objects
use extremes.Base.{
  ℕ, zero, suc, ◌+◌, ◌%◌, ◌^◌, Bool, true, false, not, List, [], ◌∷◌, ◌++◌, Option, none, some,
  Bytes, codes, ltb, ◌==◌, if◌then◌else◌, length, ◌⊎◌, inl, inr, bytes_cmp,
}
use Prim.Native.Nat.{Ordering}
use extremes.Base.Map.{Map}
use extremes.Common.{is_empty}
use extremes.Connection.Listing.{FileInfo, Listed}
use extremes.Connection.Requests.{
  Environment, Outcome, done, failed, crashed, ◌>>=◌, lift, begins_with,
}
use extremes.Connection.Transfers.{find_region}
use extremes.Errors.{Exception, es3_exception, std_exception, unknown_exception, err_fatal}
use extremes.Paths.{parse_path}
use extremes.Sync.Tree.{S3Path, Entry, Dir, Dirs, dir, no_dirs, subdir}

-- What a command asks of the `synchronizer` and of the agenda, in a world that they change:
-- `create_schedule` with its three switches and whether it found what it was to list; `run` with the
-- number of tasks that failed; and `tasks_count`.
pub record Machine (S : Type 0) : Type 0 where
  pub create_schedule : Bool → Bool → Bool → S → Bool × S
  pub run : S → ℕ × S
  pub tasks_count : S → ℕ

module _ {S : Type 0} (m : Machine S) where
  -- The end of a command: `size_t` becomes `int`.
  unfoldable pub exit_code : ℕ → S → ℕ
  exit_code failed_tasks s =
      let res = failed_tasks % 2 ^ 32 in
      if not (res == 0) then res else if m.tasks_count s == 0 then 0 else 4

  -- `for(f=0;f<3;++f)` of `do_rsync` and `do_rm`, with what stands behind it.
  unfoldable pub rounds : ℕ → Bool → Bool → Bool → S → ℕ × S
  rounds zero check delete flat s = (if m.tasks_count s == 0 then 0 else 4, s)
  rounds (suc left) check delete flat s =
      let (found, scheduled) = m.create_schedule check delete flat s in
      let (failed_tasks, ended) = m.run scheduled in
      let rest = rounds left check delete flat ended in
      if not found
      then (2, scheduled)
      else if not (failed_tasks % 2 ^ 32 == 0)
      then (failed_tasks % 2 ^ 32, ended)
      else if m.tasks_count ended == 0
      then (0, ended)
      else rest

-- What `main` returns, as the caller of the program sees it.
abbrev pub exit_status : ℕ → ℕ
exit_status code = code % 256

-- The two sides of a synchronization.
pub record Sides : Type 0 where
  pub remotes : List S3Path
  pub locals : List Bytes
  pub do_upload : Bool

-- `bf::exists`, and whether a path exists after `bf::create_directories`.
pub record Disk : Type 0 where
  pub exists : Bytes → Bool
  pub create_directories : Bytes → Bool

abbrev pub split_back : Bytes → List Bytes → List Bytes × Bytes
split_back a [] = ([], a)
split_back a (b ∷ args) = let (front, back) = split_back b args in (a ∷ front, back)

abbrev pub all_exist : Disk → List Bytes → Bool
all_exist disk [] = true
all_exist disk (a ∷ args) = if disk.exists a then all_exist disk args else false

module _ (env : Environment) where
  -- `parse_path` and the zone of its bucket.
  unfoldable pub locate : Bytes → Outcome S3Path
  unfolding parse_path find_region
  locate url = lift false (parse_path url) >>= λ path.
      find_region env path.bucket >>= λ region. done (record path { zone = region })

  unfoldable pub locate_all : List Bytes → Outcome (List S3Path)
  unfolding locate
  locate_all [] = done []
  locate_all (url ∷ urls) = locate url >>= λ path. locate_all urls >>= λ paths. done (path ∷ paths)

  -- The part of `do_rsync` before its rounds: an exit code or the two sides.
  unfoldable pub rsync_sides : Disk → Bytes → List Bytes → Outcome (ℕ ⊎ Sides)
  unfolding locate locate_all
  rsync_sides disk first [] = done (inl 2)
  rsync_sides disk first (second ∷ others) =
      let (args, tgt) = split_back first (second ∷ others) in
      if begins_with (codes "s3://") tgt
      then (locate tgt >>= λ path.
          if all_exist disk args
          then done (inr (record { remotes = path ∷ []; locals = args; do_upload = true }))
          else done (inl 3))
      else (if (if disk.exists tgt then true else disk.create_directories tgt)
          then (locate_all args >>= λ paths.
              done (inr (record { remotes = paths; locals = tgt ∷ []; do_upload = false })))
          else done (inl 3))

  -- `do_rsync`; `machine` is the synchronizer for two sides and a choice of deletion.
  unfoldable pub do_rsync :
      {S : Type 0} → (Sides → Bool → Machine S) → Disk → Bool → List Bytes → S → Outcome (ℕ × S)
  unfolding rsync_sides rounds
  do_rsync machine disk delete_missing [] s = done (2, s)
  do_rsync machine disk delete_missing (first ∷ others) s =
      rsync_sides disk first others >>= λ sides. elim sides [
        | inl code ↦ done (code, s)
        | inr sides ↦ done (rounds (machine sides delete_missing) 3 false false false s)
      ]

  -- `do_rm`: a synchronization with nothing, which deletes.
  unfoldable pub do_rm :
      {S : Type 0} → (Sides → Bool → Machine S) → Bool → List Bytes → S → Outcome (ℕ × S)
  unfolding locate_all rounds
  do_rm machine recursive [] s = done (2, s)
  do_rm machine recursive (first ∷ others) s = locate_all (first ∷ others) >>= λ paths. done (
      rounds (machine (record { remotes = paths; locals = []; do_upload = true }) true) 3 false true
        (not recursive) s)

  -- The common end of `do_publish` and `do_lsr`: one scheduling call for each path, and one run.
  unfoldable pub run_once :
      {S : Type 0} → Machine S → (S3Path → S → S) → List Bytes → S → Outcome (ℕ × S)
  unfolding locate exit_code
  run_once m schedule [] s =
      let (failed_tasks, ended) = m.run s in done (exit_code m failed_tasks ended, ended)
  run_once m schedule (url ∷ urls) s =
      locate url >>= λ path. run_once m schedule urls (schedule path s)

  -- `do_publish`
  unfoldable pub do_publish :
      {S : Type 0} → Machine S → (S3Path → S → S) → List Bytes → S → Outcome (ℕ × S)
  unfolding run_once
  do_publish m schedule [] s = done (2, s)
  do_publish m schedule (url ∷ urls) s = run_once m schedule (url ∷ urls) s

  -- `do_lsr`, which schedules a listing for each path.
  unfoldable do_lsr : {S : Type 0} → Machine S → (S3Path → S → S) → List Bytes → S → Outcome (ℕ × S)
  unfolding run_once
  do_lsr m schedule [] s = done (2, s)
  do_lsr m schedule (url ∷ urls) s = run_once m schedule (url ∷ urls) s

  -- One try of `do_mass_rm`, with what the later ones come to; `true` is `fail`.
  unfoldable pub after_try : Outcome Bytes → Outcome Bool → Outcome Bool
  after_try (done body) rest = done false
  after_try (failed tainted (es3_exception r)) rest = elim r.code [
    | err_fatal ↦ done true
    | _ ↦ rest
  ]
  after_try (failed tainted std_exception) rest = done true
  after_try (failed tainted unknown_exception) rest = done true
  after_try crashed rest = crashed

  -- The tries for one path, by the outcomes of the requests; the argument counts those that are left.
  unfoldable pub try_delete : ℕ → (ℕ → Outcome Bytes) → Outcome Bool
  unfolding after_try
  try_delete zero outcomes = done true
  try_delete (suc left) outcomes = after_try (outcomes left) (try_delete left outcomes)

  -- The zone for a path of `do_mass_rm`, by the zone of the line before.
  unfoldable pub zone_for : Bytes → S3Path → Outcome S3Path
  unfolding find_region
  zone_for [] remote =
      find_region env remote.bucket >>= λ zone. done (record remote { zone = zone })
  zone_for (c ∷ zone) remote = done (record remote { zone = c ∷ zone })

  -- `do_mass_rm` on the lines of its input; `attempts` gives the outcomes of the DELETE requests for
  -- a path. The exit code, and the paths that were asked to be deleted.
  unfoldable pub mass_rm :
      (S3Path → ℕ → Outcome Bytes) → Bytes → List Bytes → Outcome (ℕ × List S3Path)
  unfolding parse_path zone_for try_delete
  mass_rm attempts zone [] = done (0, [])
  mass_rm attempts zone (line ∷ lines) = lift false (parse_path line) >>= λ remote.
      zone_for zone remote >>= λ located. try_delete 3 (attempts located) >>= λ fail.
      if fail
      then done (2, located ∷ [])
      else (mass_rm attempts located.zone lines >>= λ rest. done (rest.0, located ∷ rest.1))

-- `stat_struct`
pub record StatStruct : Type 0 where
  pub size : ℕ
  pub file_num : ℕ
  pub dir_num : ℕ
  pub recent_timestamp : Bytes

-- `mtime>out->recent_timestamp_`
abbrev pub later : Bytes → Bytes → Bytes
later mtime recent = elim (bytes_cmp recent mtime) [ Ordering.lt ↦ mtime | _ ↦ recent ]

unfoldable pub count_files : Map Bytes (Entry S3Path FileInfo) → StatStruct → StatStruct
count_files [] out = out
count_files ((k, f) ∷ files) out = count_files files (record out {
  size = (out.size + f.info.size) % 2 ^ 64;
  file_num = out.file_num + 1;
  recent_timestamp = later f.info.mtime_str out.recent_timestamp;
})

unfoldable mutual
  unfolding count_files

  -- `get_size`
  pub get_size : Listed → StatStruct → StatStruct
  get_size (dir abs name files dirs) out = get_sizes dirs (count_files files out)

  -- Its second loop.
  pub get_sizes : Dirs S3Path FileInfo → StatStruct → StatStruct
  get_sizes no_dirs out = out
  get_sizes (subdir k d ds) out =
      get_sizes ds (get_size d (record out { dir_num = out.dir_num + 1 }))
