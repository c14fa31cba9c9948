-- ===== src/Agenda.antt =====
-- es3/agenda.h and es3/agenda.cpp: the task queue, and what the worker threads do under its lock.
pub mod Tasks
pub mod Queue
pub mod Taking
pub mod Claims
pub mod System
pub mod Worker
pub mod Listed
pub mod Progress
pub mod Display
pub mod Printed
use extremes.Base.{
  ℕ, zero, suc, ◌+◌, ◌-◌, ◌%◌, ◌^◌, Bool, true, false, List, [], ◌∷◌, Option, none, some, Bytes,
  leb, ltb, ◌==◌, if◌then◌else◌, nat_key, bytes_key,
}
use extremes.Base.Map.{Map, find, upsert, insert, erase}
use Tasks.{Task, TaskClass, unbound, cpu_bound, io_bound, class_key}

-- `std::multimap<int64_t, sync_task_ptr>`, in the order of iteration.
abbrev pub TaskMap : Type 0 → Type 0
TaskMap J = List (ℕ × Task J)

abbrev pub ByClass : Type 0 → Type 0
ByClass J = Map TaskClass (TaskMap J)

abbrev pub SizeMap : Type 0 → Type 0
SizeMap J = Map ℕ (ByClass J)

pub record Agenda (J : Type 0) : Type 0 where
  pub limits : TaskClass → ℕ
  pub max_segments : ℕ
  pub segment_size : ℕ
  pub tasks : SizeMap J
  pub classes : Map TaskClass ℕ
  pub num_working : ℕ
  pub segments_in_flight : ℕ
  pub num_submitted : ℕ
  pub num_done : ℕ
  pub num_failed : ℕ
  pub stats : Map Bytes ℕ

abbrev pub class_limits : ℕ → ℕ → ℕ → TaskClass → ℕ
class_limits num_unbound num_cpu num_io unbound = num_unbound
class_limits num_unbound num_cpu num_io cpu_bound = num_cpu
class_limits num_unbound num_cpu num_io io_bound = num_io

-- The constructor. The two flags that only govern printing are left out.
unfoldable pub init : {J : Type 0} → ℕ → ℕ → ℕ → ℕ → ℕ → Agenda J
init num_unbound num_cpu num_io segment_size max_segments = record {
  limits = class_limits num_unbound num_cpu num_io;
  max_segments = max_segments;
  segment_size = segment_size;
  tasks = [];
  classes = [];
  num_working = 0;
  segments_in_flight = 0;
  num_submitted = 0;
  num_done = 0;
  num_failed = 0;
  stats = [];
}

abbrev pub or_empty {ℓ} : {A : Type ℓ} → Option (List A) → List A
or_empty none = []
or_empty (some m) = m

abbrev pub or_zero : Option ℕ → ℕ
or_zero none = 0
or_zero (some n) = n

abbrev pub bump : Option ℕ → ℕ
bump o = suc (or_zero o)

abbrev pub lower : Option ℕ → ℕ
lower o = or_zero o - 1

-- What one round of `claim_task` under the lock comes to: the null task that ends the worker, a
-- wait on the condition variable, or a task with its number of segments.
pub data Claim (J : Type 0) : Type 0 where
  finished : Claim J
  wait : Claim J
  claimed : Task J → ℕ → Agenda J → Claim J

module _ {J : Type 0} where
  -- `multimap::insert`: behind the tasks of the same ordinal.
  unfoldable pub enqueue : Task J → TaskMap J → TaskMap J
  enqueue t [] = (t.ordinal, t) ∷ []
  enqueue t ((k, u) ∷ q) =
      if ltb t.ordinal k then (t.ordinal, t) ∷ (k, u) ∷ q else (k, u) ∷ enqueue t q

  -- `agenda::schedule`
  unfoldable pub schedule : Task J → Agenda J → Agenda J
  unfolding enqueue
  schedule t a = record a {
    classes = upsert t.class or_zero a.classes;
    tasks =
        upsert t.needs
          (λ by_class. upsert t.class (λ q. enqueue t (or_empty q)) (or_empty by_class)) a.tasks;
    num_submitted = a.num_submitted + 1;
  }

  -- The size group that `claim_task` looks at, whatever the class: the greatest one if its tasks
  -- fit into the free segments, else the least one if its tasks do.
  unfoldable pub last_entry : ℕ × ByClass J → SizeMap J → ℕ × ByClass J
  last_entry e [] = e
  last_entry e (f ∷ m) = last_entry f m

  unfoldable pub choose_group : ℕ → SizeMap J → Option (ℕ × ByClass J)
  unfolding last_entry
  choose_group avail [] = none
  choose_group avail (e ∷ m) =
      if leb (last_entry e m).0 avail
      then some (last_entry e m)
      else if leb e.0 avail
      then some e
      else none

  abbrev pub head_task : Option (TaskMap J) → Option (Task J)
  head_task none = none
  head_task (some []) = none
  head_task (some ((_, t) ∷ q)) = some t

  -- The loop over `classes_`: the first class that is below its limit and has a task in the group.
  unfoldable pub select :
      (TaskClass → ℕ) → Option (ℕ × ByClass J) → Map TaskClass ℕ → Option (ℕ × TaskClass × Task J)
  select limits group [] = none
  select limits none ((c, busy) ∷ rest) = none
  select limits (some (n, by_class)) ((c, busy) ∷ rest) =
      let later = select limits (some (n, by_class)) rest in
      if leb (limits c) busy
      then later
      else elim (head_task (find c by_class)) [ none ↦ later | some t ↦ some (n, c, t) ]

  -- Taking the first task of class `c` out of group `n`: emptied entries are erased.
  unfoldable pub drop_head : TaskClass → ByClass J → ByClass J
  drop_head c by_class = elim (find c by_class) [
    | none ↦ by_class
    | some [] ↦ by_class
    | some (e ∷ []) ↦ erase c by_class
    | some (e ∷ f ∷ q) ↦ insert c (f ∷ q) by_class
  ]

  unfoldable pub take_task : ℕ → TaskClass → SizeMap J → SizeMap J
  unfolding drop_head
  take_task n c tasks = elim (find n tasks) [
    | none ↦ tasks
    | some by_class ↦ elim (drop_head c by_class) [
      | [] ↦ erase n tasks
      | e ∷ m ↦ insert n (e ∷ m) tasks
    ]
  ]

  -- The counters of a claimed task, `get_segments` included.
  unfoldable pub start : ℕ → TaskClass → Agenda J → Agenda J
  unfolding take_task
  start n c a = record a {
    tasks = take_task n c a.tasks;
    num_working = a.num_working + 1;
    classes = upsert c bump a.classes;
    segments_in_flight = a.segments_in_flight + n;
  }

  abbrev pub available : Agenda J → ℕ
  available a = a.max_segments - a.segments_in_flight

  abbrev pub take_selected : Agenda J → Option (ℕ × TaskClass × Task J) → Claim J
  take_selected a none = wait
  take_selected a (some (n, c, t)) = claimed t n (start n c a)

  -- `task_executor::claim_task`. `max_segments_in_flight_-segments_in_flight_` does not wrap, as
  -- long as no more segments are out than the maximum.
  unfoldable pub claim_from : Agenda J → SizeMap J → Claim J
  claim_from a [] = if a.num_working == 0 then finished else wait
  claim_from a (e ∷ m) =
      take_selected a (select a.limits (choose_group (available a) (e ∷ m)) a.classes)

  unfoldable pub claim : Agenda J → Claim J
  unfolding choose_group select claim_from
  claim a = claim_from a a.tasks

  -- `task_executor::cleanup`
  unfoldable pub cleanup : Task J → Bool → Agenda J → Agenda J
  cleanup t fail a = record a {
    num_working = a.num_working - 1;
    classes = upsert t.class lower a.classes;
    num_done = a.num_done + 1;
    num_failed = if fail then a.num_failed + 1 else a.num_failed;
  }

  -- `segment_deleter`
  unfoldable pub release_segment : Agenda J → Agenda J
  release_segment a = record a { segments_in_flight = a.segments_in_flight - 1 }

  -- `agenda::add_stat_counter`
  unfoldable pub add_stat_counter : Bytes → ℕ → Agenda J → Agenda J
  add_stat_counter stat val a = record a {
    stats = upsert stat (λ o. (or_zero o + val) % 2 ^ 64) a.stats;
  }
