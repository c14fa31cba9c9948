-- ===== src/Sync/Schedule/Failing.antt =====
-- es3/sync.cpp, `create_schedule`: a listing that failed once.
use extremes.Base.{
  ap, none, ◌+◌, ◌<◌, ◌≡◌, refl, Bool, false, List, [], ◌∷◌, Bytes, arith, ◌==◌, ◌%◌, ◌^◌,
}
use extremes.Sync.Tree.{LocalDir}
use extremes.Sync.Merge.{merged, refused}
use extremes.Sync.Included.{Settings}
use extremes.Sync.Schedule.{
  Round, Scheduled, collides, prepare, no_round, merge_all, schedule_listed, create_schedule,
}

prepare-failing :
    (r0 r1 r2 : Round)
    → 0 < r0.failed
    → r0.failed + r1.failed + r2.failed < 2 ^ 32
    → prepare 0 (r0 ∷ r1 ∷ r2 ∷ []) no_round ≡ r2
unfolding prepare
prepare-failing r0 r1 r2 some few =
    let first : ((0 + r0.failed) % 2 ^ 32 == 0) ≡ false = ground arith in
    let second : (((0 + r0.failed) + r1.failed) % 2 ^ 32 == 0) ≡ false = ground arith in
    let third : ((((0 + r0.failed) + r1.failed) + r2.failed) % 2 ^ 32 == 0) ≡ false =
      ground arith in
    rw (first, second, third) refl

-- When a listing task fails in the first round, three rounds are made, also where nothing fails in
-- the second and the third, and what follows is what a first round gives that has listed what the
-- third one did and in which nothing failed, whatever failed in it.
pub create_schedule-failing :
    (refuses : Bytes → Bool) (set : Settings)
    (do_upload check_mode delete_mode non_recursive : Bool) (locals : List LocalDir)
    (r0 r1 r2 : Round)
    → 0 < r0.failed
    → r0.failed + r1.failed + r2.failed < 2 ^ 32
    → (prepare 0 (r0 ∷ r1 ∷ r2 ∷ []) no_round ≡ r2)
      × (create_schedule refuses set do_upload check_mode delete_mode non_recursive locals r0 r1 r2
          ≡ create_schedule refuses set do_upload check_mode delete_mode non_recursive locals
              (record r2 { failed = 0 })
              r1
              r2)
unfolding create_schedule prepare schedule_listed
create_schedule-failing refuses set do_upload check_mode delete_mode non_recursive locals r0 r1 r2
      some few =
    let last = prepare-failing r0 r1 r2 some few in
    let f : Round → Scheduled = λ r. elim (merge_all none locals) [
      | refused why ↦ collides why
      | merged local ↦
          schedule_listed refuses set do_upload check_mode delete_mode non_recursive local r
    ] in
    (last, ap f last)
