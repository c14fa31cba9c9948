-- ===== src/Tests/Schedules.antt =====
-- Runs of `create_schedule`, of es3/sync.cpp, and of the end of a download.
use extremes.Base.{ℕ, ◌≡◌, refl, Bool, true, false, [], ◌∷◌, ◌++◌, none, Bytes, codes, arith}
use extremes.Sync.Fresh.{no_patterns}
use extremes.Sync.Schedule.{Round, returns, prepare, no_round, create_schedule}
use extremes.Sync.Schedule.Failing.{create_schedule-failing}
use extremes.Sync.Schedule.Removing.{all_to_remove, create_schedule-to_remove}
use extremes.Sync.Tree.{S3Path, Entry, dir, no_dirs, LocalDir, S3Directory}

abbrev at_path : Bytes → S3Path
at_path path = record { zone = codes "s3"; bucket = codes "b"; path = path }

abbrev entry : Bytes → Bytes × Entry S3Path Unit
entry name = (name, record { absolute_name = at_path (codes "/" ++ name); name = name; info = tt })

-- The remote side holds `a` and `b`; the last listing has failed behind `a`.
abbrev whole : S3Directory
whole = dir (at_path (codes "/")) [] (entry (codes "a") ∷ entry (codes "b") ∷ []) no_dirs

abbrev cut_off : S3Directory
cut_off = dir (at_path (codes "/")) [] (entry (codes "a") ∷ []) no_dirs

abbrev home : LocalDir
home =
    dir (codes "/h") (codes "h")
      ((codes "b", record { absolute_name = codes "/h/b"; name = codes "b"; info = false }) ∷ [])
      no_dirs

abbrev failing : S3Directory → ℕ → Round
failing d n = record { lists = d ∷ []; failed = n; left = 0 }

abbrev never : Bytes → Bool
never path = false

create_schedule-failing_example :
    (prepare 0 (failing whole 1 ∷ failing whole 0 ∷ failing cut_off 1 ∷ []) no_round
      ≡ failing cut_off 1)
    × (create_schedule never
          (no_patterns true)
          false
          false
          false
          false
          (home ∷ [])
          (failing whole 1)
          (failing whole 0)
          (failing cut_off 1)
        ≡ create_schedule never
            (no_patterns true)
            false
            false
            false
            false
            (home ∷ [])
            (failing cut_off 0)
            (failing whole 0)
            (failing cut_off 1))
create_schedule-failing_example =
    create_schedule-failing never (no_patterns true) false false false false (home ∷ [])
      (failing whole 1) (failing whole 0) (failing cut_off 1) (omega arith) (omega arith)

create_schedule-to_remove_example :
    create_schedule never
      (no_patterns true)
      true
      false
      true
      false
      []
      (failing whole 0)
      (failing cut_off 0)
      (failing cut_off 0)
    ≡ returns true (record { actions = all_to_remove (whole ∷ []); stopped = none })
create_schedule-to_remove_example =
    create_schedule-to_remove true never true false (failing whole 0) (failing cut_off 0)
      (failing cut_off 0) refl refl
