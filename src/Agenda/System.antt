-- ===== src/Agenda/System.antt =====
-- The agenda under its worker threads: every call that takes the lock is one step, in any order.
use extremes.Base.{
  ℕ, suc, ◌+◌, ◌≤◌, ◌≡◌, refl, sym, ◌∙◌, ap, subst, Bool, List, [], ◌∷◌, ◌++◌, Option, arith,
  if◌then◌else◌, length, length-append, nat_key, ◌=k◌,
}
use extremes.Base.Map.{Map, find, upsert, IsSorted, upsert-IsSorted, find-upsert}
use extremes.Agenda.Tasks.{Task, TaskClass, class_key}
use extremes.Agenda.{
  Agenda, claimed, start, bump, lower, or_zero, schedule, claim, cleanup, release_segment, init,
}
use extremes.Agenda.Queue.{IsTidy, queued, schedule-IsTidy, queued-schedule}
use extremes.Agenda.Taking.{queued-take_task, take_task-IsTidy}
use extremes.Agenda.Claims.{IsClaimed, claim-IsClaimed}

-- `running` are the tasks between `claim_task` and `cleanup`, and `held` counts the segment objects
-- that are alive; a segment can outlive the task that it was handed to.
pub record System (J : Type 0) : Type 0 where
  pub agenda : Agenda J
  pub running : List (Task J)
  pub held : ℕ

-- A class count after a change of one class.
count-upsert :
    (c d : TaskClass) (f : Option ℕ → ℕ) (m : Map TaskClass ℕ)
    → IsSorted m
    → or_zero (find c (upsert d f m)) ≡ (if c =k d then f (find d m) else or_zero (find c m))
count-upsert c d f m s = ground (arith, find-upsert c d f m s)

module _ {J : Type 0} where
  pub data Step (s u : System J) : Type 0 where
    schedules : (t : Task J) → u ≡ record s { agenda = schedule t s.agenda } → Step s u
    claims :
        (t : Task J) (n : ℕ) (b : Agenda J)
        → claim s.agenda ≡ claimed t n b
        → u ≡ record { agenda = b; running = t ∷ s.running; held = s.held + n }
        → Step s u
    finishes :
        (t : Task J) (fail : Bool) (before after : List (Task J))
        → s.running ≡ before ++ t ∷ after
        → u ≡ record s { agenda = cleanup t fail s.agenda; running = before ++ after }
        → Step s u
    releases :
        (left : ℕ)
        → s.held ≡ suc left
        → u ≡ record s { agenda = release_segment s.agenda; held = left }
        → Step s u

  pub data Reach (s : System J) : System J → Type 0 where
    here : Reach s s
    next : {t u : System J} → Reach s t → Step t u → Reach s u

  abbrev pub of_class : TaskClass → Task J → ℕ
  of_class c t = if c =k t.class then 1 else 0

  abbrev pub count_class : TaskClass → List (Task J) → ℕ
  count_class c [] = 0
  count_class c (t ∷ ts) = of_class c t + count_class c ts

  abbrev pub one : Task J → ℕ
  one t = 1

  -- The counters say what is the case, and stay within their limits.
  pub record Inv (s : System J) : Type 0 where
    pub tidy : IsTidy s.agenda.tasks
    pub sorted : IsSorted s.agenda.classes
    pub working : s.agenda.num_working ≡ length s.running
    pub counted : (c : TaskClass) → or_zero (find c s.agenda.classes) ≡ count_class c s.running
    pub bounded : (c : TaskClass) → or_zero (find c s.agenda.classes) ≤ s.agenda.limits c
    pub in_flight : s.agenda.segments_in_flight ≡ s.held
    pub segments : s.held ≤ s.agenda.max_segments
    pub balance :
        s.agenda.num_submitted
        ≡ queued one s.agenda.tasks + s.agenda.num_working + s.agenda.num_done

  count_class-append :
      (c : TaskClass) (xs ys : List (Task J))
      → count_class c (xs ++ ys) ≡ count_class c xs + count_class c ys
  count_class-append c [] ys = omega arith
  count_class-append c (x ∷ xs) ys = omega (arith, count_class-append c xs ys)

  schedule-Inv :
      (t : Task J) (s : System J) → Inv s → Inv (record s { agenda = schedule t s.agenda })
  unfolding schedule
  schedule-Inv t s v =
      let same = λ (c : TaskClass). count-upsert c t.class or_zero s.agenda.classes v.sorted in
      record {
        tidy = schedule-IsTidy t s.agenda v.tidy;
        sorted = upsert-IsSorted t.class or_zero s.agenda.classes v.sorted;
        working = v.working;
        counted = λ c. ground (arith, v.counted c, same c, class_key.cmp_eq c t.class);
        bounded = λ c. ground (arith, v.bounded c, same c, class_key.cmp_eq c t.class);
        in_flight = v.in_flight;
        segments = v.segments;
        balance = omega (arith, queued-schedule one t s.agenda v.tidy);
      }

  -- The state after a claim, with the agenda that `claim` returns in the form of `start`.
  abbrev claim_state : System J → Task J → ℕ → System J
  claim_state s t n = record {
    agenda = start n t.class s.agenda;
    running = t ∷ s.running;
    held = s.held + n;
  }

  start-Inv :
      (t : Task J) (n : ℕ) (b : Agenda J) (s : System J)
      → IsClaimed s.agenda t n b
      → Inv s
      → Inv (claim_state s t n)
  unfolding start
  start-Inv t n b s f v =
      let (k, q, m, group, head) = f.place in
      let (r, listed, below) = f.busy in
      let same = λ (c : TaskClass). count-upsert c t.class bump s.agenda.classes v.sorted in
      record {
        tidy = take_task-IsTidy n t.class k t q m s.agenda.tasks group head v.tidy;
        sorted = upsert-IsSorted t.class bump s.agenda.classes v.sorted;
        working = omega (arith, v.working);
        counted = λ c. ground (arith, v.counted c, same c, class_key.cmp_eq c t.class);
        bounded =
            λ c. ground (arith, v.bounded c, same c, class_key.cmp_eq c t.class, listed, below);
        in_flight = omega (arith, v.in_flight);
        segments = omega (arith, f.fits, v.segments, v.in_flight);
        balance = omega (
          arith,
          v.balance,
          queued-take_task n t.class k t q m s.agenda.tasks one group head v.tidy,
        );
      }

  claim-Inv :
      (t : Task J) (n : ℕ) (b : Agenda J) (s : System J)
      → claim s.agenda ≡ claimed t n b
      → Inv s
      → Inv (record { agenda = b; running = t ∷ s.running; held = s.held + n })
  claim-Inv t n b s e v =
      let f = claim-IsClaimed s.agenda v.tidy v.sorted e in
      subst (λ x. Inv (record { agenda = x; running = t ∷ s.running; held = s.held + n }))
        (sym f.after) (start-Inv t n b s f v)

  cleanup-Inv :
      (t : Task J) (fail : Bool) (before after : List (Task J)) (s : System J)
      → s.running ≡ before ++ t ∷ after
      → Inv s
      → Inv (record s { agenda = cleanup t fail s.agenda; running = before ++ after })
  unfolding cleanup
  cleanup-Inv t fail before after s e v =
      let same = λ (c : TaskClass). count-upsert c t.class lower s.agenda.classes v.sorted in
      let ran = λ (c : TaskClass).
        v.counted c ∙ ap (count_class c) e ∙ count_class-append c before (t ∷ after) in
      let sum = λ (c : TaskClass). count_class-append c before after in
      let size = v.working ∙ ap length e ∙ length-append before (t ∷ after) in
      record {
        tidy = v.tidy;
        sorted = upsert-IsSorted t.class lower s.agenda.classes v.sorted;
        working = omega (arith, size, length-append before after);
        counted = λ c.
            ground (arith, ran c, sum c, same c, class_key.cmp_eq c t.class, class_key.cmp_refl c);
        bounded = λ c. ground (arith, v.bounded c, same c, class_key.cmp_eq c t.class);
        in_flight = v.in_flight;
        segments = v.segments;
        balance = omega (arith, v.balance, size);
      }

  release-Inv :
      (left : ℕ) (s : System J)
      → s.held ≡ suc left
      → Inv s
      → Inv (record s { agenda = release_segment s.agenda; held = left })
  unfolding release_segment
  release-Inv left s e v = record {
    tidy = v.tidy;
    sorted = v.sorted;
    working = v.working;
    counted = v.counted;
    bounded = v.bounded;
    in_flight = omega (arith, v.in_flight);
    segments = omega (arith, v.segments);
    balance = v.balance;
  }

  Step-Inv : {s u : System J} → Step s u → Inv s → Inv u
  Step-Inv {s} (schedules t e) v = subst Inv (sym e) (schedule-Inv t s v)
  Step-Inv {s} (claims t n b c e) v = subst Inv (sym e) (claim-Inv t n b s c v)
  Step-Inv {s} (finishes t fail before after r e) v =
      subst Inv (sym e) (cleanup-Inv t fail before after s r v)
  Step-Inv {s} (releases left h e) v = subst Inv (sym e) (release-Inv left s h v)

  pub Reach-Inv : {s u : System J} → Inv s → Reach s u → Inv u
  Reach-Inv v here = v
  Reach-Inv v (next r st) = Step-Inv st (Reach-Inv v r)

-- The agenda as it is made, before its threads start.
abbrev pub boot : (J : Type 0) → ℕ → ℕ → ℕ → ℕ → ℕ → System J
boot J num_unbound num_cpu num_io segment_size max_segments = record {
  agenda = init num_unbound num_cpu num_io segment_size max_segments;
  running = [];
  held = 0;
}

pub boot-Inv :
    (J : Type 0) (num_unbound num_cpu num_io segment_size max_segments : ℕ)
    → Inv (boot J num_unbound num_cpu num_io segment_size max_segments)
unfolding init find
boot-Inv J u p i g m = record {
  tidy = (tt, tt);
  sorted = tt;
  working = refl;
  counted = λ c. refl;
  bounded = λ c. omega arith;
  in_flight = refl;
  segments = omega arith;
  balance = omega arith;
}

-- However the calls of the workers interleave, the counters of the agenda are exact (the tasks in
-- work, those of each class, the segments out, and submitted = queued + working + done), no class
-- runs more tasks than its limit, and no more segments are out than the maximum.
pub Reach-boot-Inv :
    (J : Type 0) (num_unbound num_cpu num_io segment_size max_segments : ℕ) {u : System J}
    → Reach (boot J num_unbound num_cpu num_io segment_size max_segments) u
    → Inv u
Reach-boot-Inv J n p i g m r = Reach-Inv (boot-Inv J n p i g m) r
