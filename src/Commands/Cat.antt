-- ===== src/Commands/Cat.antt =====
-- es3/downloader.cpp: `do_cat`.
pub mod Exits
use extremes.Base.{
  ℕ, zero, suc, ◌+◌, ◌*◌, ◌<◌, ◌≡◌, ◌≢◌, refl, sym, ap, ◌∙◌, Bool, true, false, not, List, [], ◌∷◌,
  ◌++◌, Bytes, arith, ◌≤◌, Bool-cases, inl, inr, length-drop, ◌==◌, if◌then◌else◌, length, take,
  drop, take-append-drop, min,
}
use extremes.Commands.{locate}
use extremes.Connection.Requests.{Environment, Outcome, done, failed, crashed, ◌>>=◌}
use extremes.Sync.Tree.{S3Path}

-- The runs of the agenda, counted from 0: how many tasks fail in each, how many are left after it, and
-- what the temporary file holds then for a path; and whether standard output takes some bytes whole.
pub record Runs : Type 0 where
  pub failures : ℕ → ℕ
  pub tasks_count : ℕ → ℕ
  pub content : ℕ → S3Path → Bytes
  pub writes : Bytes → Bool

-- What is known after the tries for a path: the last result of `run`, the number of the next run, and
-- `num_failed_`.
pub record Tried : Type 0 where
  pub failed_tasks : ℕ
  pub run : ℕ
  pub num_failed : ℕ

-- `for (int f=0;f<6;++f)`, with the tries that are left. `run` gives `num_failed_`, which no run sets
-- back.
unfoldable pub tries : Runs → ℕ → ℕ → ℕ → ℕ → Tried
tries w zero last run num_failed = record {
  failed_tasks = last;
  run = run;
  num_failed = num_failed;
}
tries w (suc left) last run num_failed =
    let total = num_failed + w.failures run in
    let again = tries w left total (run + 1) total in
    if total == 0 then record { failed_tasks = 0; run = run + 1; num_failed = 0 } else again

abbrev pub block_len : ℕ
block_len = 16384

-- The loop that copies the file to standard output: what has been written, and whether each write was
-- whole.
unfoldable pub copy_out : (Bytes → Bool) → ℕ → Bytes → Bytes × Bool
copy_out writes zero file = ([], true)
copy_out writes (suc fuel) [] = ([], true)
copy_out writes (suc fuel) (c ∷ file) =
    let block = take block_len (c ∷ file) in
    let (rest, whole) = copy_out writes fuel (drop block_len (c ∷ file)) in
    if writes block then (block ++ rest, whole) else ([], false)

-- An exit code, with what standard output was given.
pub record Printed : Type 0 where
  pub code : ℕ
  pub output : Bytes

abbrev pub behind : Bytes → Printed → Printed
behind front p = record p { output = front ++ p.output }

-- What follows the tries for a path, with what the later paths come to.
unfoldable pub print_file : Runs → S3Path → Tried → Outcome Printed → Outcome Printed
unfolding copy_out
print_file w remote t rest =
    let file = w.content t.run remote in
    let (out, whole) = copy_out w.writes (length file) file in
    if not (w.tasks_count t.run == 0)
    then done (record { code = 4; output = [] })
    else if not (t.failed_tasks == 0)
    then done (record { code = 6; output = [] })
    else if whole
    then (rest >>= λ p. done (behind out p))
    else done (record { code = 5; output = out })

module _ (env : Environment) (w : Runs) where
  -- The loop over the paths, from this run of the agenda on.
  unfoldable pub cat_paths : List Bytes → ℕ → ℕ → Outcome Printed
  unfolding locate
  cat_paths [] run num_failed = done (record { code = 0; output = [] })
  cat_paths (url ∷ urls) run num_failed = locate env url >>= λ remote.
      let t = tries w 6 0 run num_failed in
      print_file w remote t (cat_paths urls t.run t.num_failed)

  -- `do_cat`
  unfoldable pub do_cat : List Bytes → Outcome Printed
  unfolding cat_paths
  do_cat [] = done (record { code = 2; output = [] })
  do_cat (url ∷ urls) = cat_paths (url ∷ urls) 0 0
