-- ===== src/Commands/Rounds.antt =====
-- es3/commands.cpp: the exit codes of `do_rsync` and `do_rm`.
use extremes.Base.{
  ℕ, zero, suc, ◌*◌, ◌%◌, ◌^◌, ◌<◌, ◌≡◌, ap, ◌∙◌, Bool, true, false, arith, ◌==◌, inl, inr,
  Bool-cases,
}
use extremes.Commands.{Machine, rounds, exit_status}

module _ {S : Type 0} (m : Machine S) (check delete flat : Bool) where
  abbrev pub scheduled : S → S
  scheduled s = (m.create_schedule check delete flat s).1

  abbrev ended : S → S
  ended s = (m.run (scheduled s)).1

  abbrev pub failures : S → ℕ
  failures s = (m.run (scheduled s)).0

  abbrev pub is_found : S → Bool
  is_found s = (m.create_schedule check delete flat s).0

  -- An exit code of 0 is given only in a world in which no task is pending.
  pub rounds-zero :
      (left : ℕ) (s : S)
      → (rounds m left check delete flat s).0 ≡ 0
      → m.tasks_count (rounds m left check delete flat s).1 ≡ 0
  unfolding rounds
  rounds-zero zero s h = elim (Bool-cases (m.tasks_count s == 0)) [
    | inl empty ↦ ground arith
    | inr pending ↦ ground arith
  ]
  rounds-zero (suc left) s h = let rest = rounds-zero left (ended s) in ground arith

  -- A round that found its sources and in which a multiple of 256 tasks failed ends the command, and
  -- the caller of the program sees a success.
  rounds-failures :
      (left k : ℕ) (s : S)
      → is_found s ≡ true
      → failures s ≡ 256 * suc k
      → 256 * suc k < 2 ^ 32
      → ((rounds m (suc left) check delete flat s).0 ≡ failures s)
        × (exit_status (rounds m (suc left) check delete flat s).0 ≡ 0)
  unfolding rounds
  rounds-failures left k s found count small =
      let whole : failures s % 2 ^ 32 ≡ failures s = omega arith in
      let some_ : (failures s % 2 ^ 32 == 0) ≡ false = ground arith in
      let code : (rounds m (suc left) check delete flat s).0 ≡ failures s = ground arith in
      (code, ap exit_status code ∙ omega arith)
