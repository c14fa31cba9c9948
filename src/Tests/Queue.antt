-- ===== src/Tests/Queue.antt =====
-- Runs of es3/agenda.cpp: the queue, a claim, and a worker.
use extremes.Base.{ℕ, length, ◌⊎◌, nat_key, ◌≡◌, refl, ◌+◌, ◌<◌, ◌≤◌, arith, false, [], ◌∷◌}
use extremes.Base.Map.{find, upsert, erase}
use extremes.Agenda.{Agenda, claimed, finished, init, schedule, claim, available, start, cleanup}
use extremes.Agenda.Tasks.{Task, TaskClass, unbound, cpu_bound, io_bound, class_key}
use extremes.Agenda.Queue.{IsTidy}
use extremes.Agenda.System.{
  System, schedules, claims, finishes, Reach, here, next, Inv, boot, Reach-boot-Inv,
}
use extremes.Agenda.Display.{in_sizes, tasks_count}
use extremes.Agenda.Printed.{Reach-boot-printed}
use extremes.Agenda.Progress.{claim-claimed, claim-finished}

abbrev download : Task ℕ
download = record { class = io_bound; needs = 1; ordinal = 0; job = 7 }

abbrev empty : Agenda ℕ
empty = init 4 2 3 6291456 10

empty-IsTidy : IsTidy empty.tasks
unfolding init
empty-IsTidy = (tt, tt)

abbrev submitted : Agenda ℕ
submitted = schedule download empty

submitted-claim : claim submitted ≡ claimed download 1 (start 1 io_bound submitted)
unfolding schedule init claim upsert find
submitted-claim = refl

abbrev waiting : System ℕ
waiting = record { agenda = submitted; running = []; held = 0 }

abbrev working : System ℕ
working = record { agenda = start 1 io_bound submitted; running = download ∷ []; held = 1 }

waiting-Reach : Reach (boot ℕ 4 2 3 6291456 10) waiting
waiting-Reach = next here (schedules download refl)

working-Reach : Reach (boot ℕ 4 2 3 6291456 10) working
working-Reach =
    next waiting-Reach (claims download 1 (start 1 io_bound submitted) submitted-claim refl)

Reach-boot-Inv_example : Inv working
Reach-boot-Inv_example = Reach-boot-Inv ℕ 4 2 3 6291456 10 working-Reach

limits-pos : (c : TaskClass) → 0 < submitted.limits c
unfolding schedule init upsert
limits-pos unbound = omega arith
limits-pos cpu_bound = omega arith
limits-pos io_bound = omega arith

submitted-tasks : submitted.tasks ≡ (1, (io_bound, (0, download) ∷ []) ∷ []) ∷ []
unfolding schedule init upsert
submitted-tasks = refl

submitted-available : 1 ≤ available submitted
unfolding schedule init upsert
submitted-available = omega arith

claim-claimed_example : (t : Task ℕ) × (i : ℕ) × (b : Agenda ℕ) × (claim submitted ≡ claimed t i b)
claim-claimed_example =
    claim-claimed ℕ 4 2 3 6291456 10 waiting 1 ((io_bound, (0, download) ∷ []) ∷ []) []
      waiting-Reach refl limits-pos submitted-tasks submitted-available

abbrev over : System ℕ
over = record {
  agenda = cleanup download false (start 1 io_bound submitted);
  running = [];
  held = 1;
}

over-Reach : Reach (boot ℕ 4 2 3 6291456 10) over
over-Reach = next working-Reach (finishes download false [] [] refl refl)

over-finished : claim over.agenda ≡ finished
unfolding schedule init claim cleanup start upsert find erase
over-finished = refl

claim-finished_example :
    (over.running ≡ [])
    × (over.agenda.tasks ≡ [])
    × (over.agenda.num_submitted ≡ over.agenda.num_done)
claim-finished_example = claim-finished ℕ 4 2 3 6291456 10 over over-Reach over-finished

Reach-boot-printed_example :
    (length (in_sizes waiting.agenda.tasks) + waiting.agenda.num_working + waiting.agenda.num_done
      ≡ waiting.agenda.num_submitted)
    × (tasks_count waiting.agenda ≤ length (in_sizes waiting.agenda.tasks))
    × ((0 < tasks_count waiting.agenda) ⊎ (length (in_sizes waiting.agenda.tasks) ≡ 0))
Reach-boot-printed_example = Reach-boot-printed ℕ 4 2 3 6291456 10 waiting-Reach
