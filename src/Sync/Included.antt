-- ===== src/Sync/Included.antt =====
-- es3/sync.cpp: `check_included`, and the tasks that a plan schedules.
use extremes.Base.{Bool, true, false, List, [], ◌∷◌, ◌++◌, Option, none, some, Bytes, if◌then◌else◌}
use extremes.Glob.{Failure, Result, ok, fail, ◌>>=◌, pattern_match}
use extremes.Sync.Tree.{S3Path, has_space}

-- The fields of `synchronizer` that its plans read.
pub record Settings : Type 0 where
  pub delete_missing : Bool
  pub included : List Bytes
  pub excluded : List Bytes

-- One of the loops over patterns.
unfoldable pub any_match : List Bytes → Bytes → Result Bool
any_match [] name = ok false
any_match (p ∷ ps) name =
    pattern_match p name >>= λ found. if found then ok true else any_match ps name

unfoldable pub included_by : List Bytes → Bytes → Result Bool
unfolding any_match
included_by [] name = ok true
included_by (p ∷ ps) name = any_match (p ∷ ps) name

unfoldable pub check_included : Bytes → List Bytes → List Bytes → Result Bool
unfolding any_match included_by
check_included name included excluded =
    if has_space name
    then ok false
    else any_match excluded name >>= λ out. if out then ok false else included_by included name

-- The tasks, and the two things that `process_downloads` does on the spot.
pub data Action : Type 0 where
  file_uploader : Bytes → S3Path → Action
  remote_file_deleter : S3Path → Action
  file_downloader : Bytes → S3Path → Bool → Action
  local_file_deleter : Bytes → Action
  make_directory : Bytes → Action
  delete_now : Bytes → Action

-- Why a plan stops before its end: a pattern that cannot be read, a null pointer that is followed,
-- subdirectories that may not be deleted, and a directory that cannot be made.
pub data Stop : Type 0 where
  bad_pattern : Failure → Stop
  null_pointer not_recursive no_directory : Stop

-- What was done in order, and why it stopped.
pub record Plan : Type 0 where
  pub actions : List Action
  pub stopped : Option Stop

abbrev pub nothing : Plan
nothing = record { actions = []; stopped = none }

abbrev pub one : Action → Plan
one a = record { actions = a ∷ []; stopped = none }

abbrev pub stop : Stop → Plan
stop why = record { actions = []; stopped = some why }

-- The second plan runs only if the first one does not stop.
infixl 5 ◌then_do◌
abbrev pub ◌then_do◌ : Plan → Plan → Plan
p then_do q = elim p.stopped [
  | none ↦ record { actions = p.actions ++ q.actions; stopped = q.stopped }
  | some why ↦ p
]

-- `if (check_included(...))` around a plan.
unfoldable pub if_included : Result Bool → Plan → Plan
if_included (ok true) p = p
if_included (ok false) p = nothing
if_included (fail why) p = stop (bad_pattern why)
