-- ===== src/Agenda/Queue.antt =====
-- The three-level queue `tasks_`: what keeps it tidy, and what scheduling and taking do to it.
use extremes.Base.{ℕ, ◌+◌, ◌≡◌, refl, List, [], ◌∷◌, Option, none, some, arith, All, nat_key}
use extremes.Base.Map.{
  find, upsert, IsSorted, weight, weight_at, Every, weight-upsert, find-Every, upsert-Every,
  upsert-IsSorted,
}
use extremes.Agenda.Tasks.{Task, TaskClass, class_key}
use extremes.Agenda.{TaskMap, ByClass, SizeMap, Agenda, enqueue, or_empty, schedule}

abbrev pub IsCons {ℓ} : {A : Type ℓ} → List A → Type 0
IsCons [] = ⊥
IsCons (x ∷ xs) = Unit

module _ {J : Type 0} where
  -- A queue is not empty, and its tasks belong where it stands.
  abbrev pub Belongs : ℕ → TaskClass → ℕ × Task J → Type 0
  Belongs n c (k, t) = (t.needs ≡ n) × (t.class ≡ c) × (t.ordinal ≡ k)

  abbrev pub IsQueue : ℕ → TaskClass → TaskMap J → Type 0
  IsQueue n c q = IsCons q × All (Belongs n c) q

  abbrev pub IsGroup : ℕ → ByClass J → Type 0
  IsGroup n m = IsCons m × IsSorted m × Every (IsQueue n) m

  abbrev pub IsTidy : SizeMap J → Type 0
  IsTidy tasks = IsSorted tasks × Every IsGroup tasks

  -- The sum of a weight over the queued tasks. With a weight of 0 and 1 it counts.
  abbrev pub tally : (Task J → ℕ) → TaskMap J → ℕ
  tally w [] = 0
  tally w ((k, t) ∷ q) = w t + tally w q

  abbrev pub queued : (Task J → ℕ) → SizeMap J → ℕ
  queued w = weight (weight (tally w))

  tally-enqueue :
      (w : Task J → ℕ) (t : Task J) (q : TaskMap J) → tally w (enqueue t q) ≡ w t + tally w q
  unfolding enqueue
  tally-enqueue w t [] = refl
  tally-enqueue w t ((k, u) ∷ q) = ground (arith, tally-enqueue w t q)

  or_empty-tally :
      (w : Task J → ℕ) (o : Option (TaskMap J)) → tally w (or_empty o) ≡ weight_at (tally w) o
  or_empty-tally w none = refl
  or_empty-tally w (some q) = refl

  or_empty-weight :
      (w : Task J → ℕ) (o : Option (ByClass J))
      → weight (tally w) (or_empty o) ≡ weight_at (weight (tally w)) o
  or_empty-weight w none = refl
  or_empty-weight w (some q) = refl

  enqueue-IsQueue :
      (t : Task J) (q : TaskMap J)
      → All (Belongs t.needs t.class) q
      → IsQueue t.needs t.class (enqueue t q)
  unfolding enqueue
  enqueue-IsQueue t [] b = (tt, ((refl, refl, refl), tt))
  enqueue-IsQueue t ((k, u) ∷ q) b = ground (arith, enqueue-IsQueue t q b.1)

  -- The group that `schedule` makes or changes.
  abbrev with_task : Task J → ByClass J → ByClass J
  with_task t m = upsert t.class (λ q. enqueue t (or_empty q)) m

  with_task-IsCons : (t : Task J) (m : ByClass J) → IsCons (with_task t m)
  unfolding upsert
  with_task-IsCons t [] = tt
  with_task-IsCons t ((c, q) ∷ m) = ground arith

  with_task-IsGroup :
      (t : Task J) (m : ByClass J)
      → IsSorted m
      → Every (IsQueue t.needs) m
      → IsGroup t.needs (with_task t m)
  with_task-IsGroup t m s b = (
    with_task-IsCons t m,
    upsert-IsSorted t.class (λ q. enqueue t (or_empty q)) m s,
    upsert-Every (IsQueue t.needs) t.class (λ q. enqueue t (or_empty q)) m (enqueue-IsQueue t [] tt)
        (λ q h. enqueue-IsQueue t q h.1) b,
  )

  pub schedule-IsTidy : (t : Task J) (a : Agenda J) → IsTidy a.tasks → IsTidy (schedule t a).tasks
  unfolding schedule
  schedule-IsTidy t a (s, b) = (
    upsert-IsSorted t.needs (λ o. with_task t (or_empty o)) a.tasks s,
    upsert-Every IsGroup t.needs (λ o. with_task t (or_empty o)) a.tasks
        (with_task-IsGroup t [] tt tt) (λ m h. with_task-IsGroup t m h.1 h.2) b,
  )

  with_task-weight :
      (w : Task J → ℕ) (t : Task J) (m : ByClass J)
      → IsSorted m
      → weight (tally w) (with_task t m) ≡ w t + weight (tally w) m
  with_task-weight w t m s =
      let f = λ (q : Option (TaskMap J)). enqueue t (or_empty q) in
      omega (
        arith,
        weight-upsert (tally w) t.class f m s,
        tally-enqueue w t (or_empty (find t.class m)),
        or_empty-tally w (find t.class m),
      )

  or_empty-IsSorted :
      (n : ℕ) (o : Option (ByClass J)) (tasks : SizeMap J)
      → find n tasks ≡ o
      → Every IsGroup tasks
      → IsSorted (or_empty o)
  or_empty-IsSorted n none tasks e b = tt
  or_empty-IsSorted n (some m) tasks e b = (find-Every IsGroup n tasks e b).1

  -- A scheduled task is queued once, and nothing else is queued or lost.
  pub queued-schedule :
      (w : Task J → ℕ) (t : Task J) (a : Agenda J)
      → IsTidy a.tasks
      → queued w (schedule t a).tasks ≡ w t + queued w a.tasks
  unfolding schedule
  queued-schedule w t a (s, b) =
      let f = λ (o : Option (ByClass J)). with_task t (or_empty o) in
      let o = find t.needs a.tasks in
      omega (
        arith,
        weight-upsert (weight (tally w)) t.needs f a.tasks s,
        with_task-weight w t (or_empty o) (or_empty-IsSorted t.needs o a.tasks refl b),
        or_empty-weight w o,
      )
