-- ===== src/Commands/Cat/Exits.antt =====
-- es3/downloader.cpp, `do_cat`: its exit codes, and what it prints.
use extremes.Base.{
  ℕ, zero, suc, ◌+◌, ◌<◌, ◌≡◌, refl, ap, Bool, true, false, List, [], ◌∷◌, ◌++◌, Bytes, arith, ◌≤◌,
  Bool-cases, inl, inr, length-drop, ◌==◌, if◌then◌else◌, length, take, drop, take-append-drop,
}
use extremes.Commands.{locate}
use extremes.Connection.Requests.{Environment, Outcome, done}
use extremes.Sync.Tree.{S3Path}
use extremes.Commands.Cat.{
  Runs, Tried, tries, copy_out, block_len, Printed, print_file, cat_paths, do_cat,
}

-- Once a task has failed, all tries that are left are made, and the last result of `run` is not 0.
tries-failing :
    (w : Runs) (left last run num_failed : ℕ)
    → 0 < num_failed
    → 0 < last
    → ((tries w left last run num_failed).run ≡ run + left)
      × (0 < (tries w left last run num_failed).failed_tasks)
unfolding tries
tries-failing w zero last run num_failed some before = (omega arith, before)
tries-failing w (suc left) last run num_failed some before =
    let total = num_failed + w.failures run in
    let on = tries-failing w left total (run + 1) total (omega arith) (omega arith) in
    let going : (total == 0) ≡ false = ground arith in rw going (omega (arith, on.0), on.1)

tries-first :
    (w : Runs)
    → 0 < w.failures 0
    → ((tries w 6 0 0 0).run ≡ 6) × (0 < (tries w 6 0 0 0).failed_tasks)
unfolding tries
tries-first w some =
    let total = 0 + w.failures 0 in
    let on = tries-failing w 5 total 1 total (omega arith) (omega arith) in
    let going : (total == 0) ≡ false = ground arith in rw going on

print_file-failing :
    (w : Runs) (remote : S3Path) (t : Tried) (rest : Outcome Printed)
    → t.run ≡ 6
    → 0 < t.failed_tasks
    → print_file w remote t rest
      ≡ done (record { code = if w.tasks_count 6 == 0 then 6 else 4; output = [] })
unfolding print_file
print_file-failing w remote t rest e some =
    let going : (t.failed_tasks == 0) ≡ false = ground arith in
    elim (Bool-cases (w.tasks_count 6 == 0)) [
      | inl none ↦ rw (e, none, going) refl
      | inr left ↦ rw (e, left) refl
    ]

-- When a task fails in the first run, no later try helps: if the path can be located, all six tries
-- are made, and `cat` ends with the code 6, or 4 if tasks are left then, and prints nothing, also
-- where each later run has fetched the file.
pub do_cat-failing :
    (env : Environment) (w : Runs) (url : Bytes) (urls : List Bytes) (remote : S3Path)
    → locate env url ≡ done remote
    → 0 < w.failures 0
    → do_cat env w (url ∷ urls)
      ≡ done (record { code = if w.tasks_count 6 == 0 then 6 else 4; output = [] })
unfolding do_cat
do_cat-failing env w url urls remote e some =
    let first = tries-first w some in
    rw e (print_file-failing w remote (tries w 6 0 0 0) _ first.0 first.1)

copy_out-whole :
    (writes : Bytes → Bool) (fuel : ℕ) (file : Bytes)
    → ((block : Bytes) → writes block ≡ true)
    → length file ≤ fuel
    → copy_out writes fuel file ≡ (file, true)
unfolding copy_out
copy_out-whole writes zero [] all enough = refl
copy_out-whole writes zero (c ∷ file) all enough = absurd (omega (arith, enough))
copy_out-whole writes (suc fuel) [] all enough = refl
copy_out-whole writes (suc fuel) (c ∷ file) all enough =
    let rest =
      copy_out-whole writes fuel (drop block_len (c ∷ file)) all
        (omega (arith, enough, length-drop block_len (c ∷ file))) in
    rw (rest, all (take block_len (c ∷ file)))
      (ap (λ s. (s, true)) (take-append-drop block_len (c ∷ file)))

-- The paths behind the URLs.
abbrev pub AreLocated : Environment → List Bytes → List S3Path → Type 0
AreLocated env [] [] = Unit
AreLocated env [] (p ∷ ps) = ⊥
AreLocated env (u ∷ us) [] = ⊥
AreLocated env (u ∷ us) (p ∷ ps) = (locate env u ≡ done p) × AreLocated env us ps

-- The files in order, each as the run that fetched it left it.
abbrev pub printed : Runs → ℕ → List S3Path → Bytes
printed w run [] = []
printed w run (p ∷ ps) = w.content (run + 1) p ++ printed w (run + 1) ps

module _ (env : Environment) (w : Runs) (fine : (run : ℕ) → w.failures run ≡ 0)
    (none_left : (run : ℕ) → w.tasks_count run ≡ 0)
    (takes : (block : Bytes) → w.writes block ≡ true) where
  tries-fine :
      (run : ℕ) → tries w 6 0 run 0 ≡ record { failed_tasks = 0; run = run + 1; num_failed = 0 }
  unfolding tries
  tries-fine run = let none = fine run in rw none refl

  print_file-fine :
      (remote : S3Path) (run : ℕ) (out : Bytes)
      → print_file w remote
          (record { failed_tasks = 0; run = run; num_failed = 0 })
          (done (record { code = 0; output = out }))
        ≡ done (record { code = 0; output = w.content run remote ++ out })
  unfolding print_file
  print_file-fine remote run out =
      let all =
        copy_out-whole w.writes (length (w.content run remote)) (w.content run remote) takes
          (omega arith) in
      rw (all, none_left run) refl

  cat_paths-fine :
      (urls : List Bytes) (paths : List S3Path) (run : ℕ)
      → AreLocated env urls paths
      → cat_paths env w urls run 0 ≡ done (record { code = 0; output = printed w run paths })
  unfolding cat_paths
  cat_paths-fine [] [] run h = refl
  cat_paths-fine [] (p ∷ ps) run h = elim h [ ]
  cat_paths-fine (u ∷ us) [] run h = elim h [ ]
  cat_paths-fine (u ∷ us) (p ∷ ps) run h =
      rw (h.0, tries-fine run, cat_paths-fine us ps (run + 1) h.1)
        (print_file-fine p (run + 1) (printed w (run + 1) ps))

  -- Where no task fails or is left, and standard output takes what it is given, `cat` succeeds, and
  -- prints the files in the order of the paths, each whole and as its own run left it.
  do_cat-fine :
      (url : Bytes) (urls : List Bytes) (remote : S3Path) (paths : List S3Path)
      → locate env url ≡ done remote
      → AreLocated env urls paths
      → do_cat env w (url ∷ urls)
        ≡ done (record { code = 0; output = printed w 0 (remote ∷ paths) })
  unfolding do_cat
  do_cat-fine url urls remote paths e h =
      rw (e, tries-fine 0, cat_paths-fine urls paths 1 h)
        (print_file-fine remote 1 (printed w 1 paths))
