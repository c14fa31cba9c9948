-- ===== src/Agenda/Taking.antt =====
-- Taking the first task of a group and class out of the queue.
use extremes.Base.{ℕ, ◌+◌, ◌≡◌, refl, [], ◌∷◌, some, arith, nat_key}
use extremes.Base.Map.{
  find, insert, erase, IsSorted, weight, Every, weight-upsert, weight-erase, find-Every,
  upsert-Every, erase-Every, upsert-IsSorted, erase-IsSorted,
}
use extremes.Agenda.Tasks.{Task, TaskClass, class_key}
use extremes.Agenda.{TaskMap, ByClass, SizeMap, drop_head, take_task}
use extremes.Agenda.Queue.{IsQueue, IsGroup, IsTidy, tally, queued}

module _ {J : Type 0} (c : TaskClass) (k : ℕ) (t : Task J) where
  drop_head-weight :
      (w : Task J → ℕ) (q : TaskMap J) (m : ByClass J)
      → find c m ≡ some ((k, t) ∷ q)
      → IsSorted m
      → w t + weight (tally w) (drop_head c m) ≡ weight (tally w) m
  unfolding drop_head
  drop_head-weight w [] m e s =
      rw (e, drop_head) (omega (arith, rw e at (weight-erase (tally w) c m)))
  drop_head-weight w (f ∷ q) m e s =
      rw (e, drop_head) (omega (arith, rw e at (weight-upsert (tally w) c (λ _. f ∷ q) m s)))

  drop_head-IsSorted :
      (q : TaskMap J) (m : ByClass J)
      → find c m ≡ some ((k, t) ∷ q)
      → IsSorted m
      → IsSorted (drop_head c m)
  unfolding drop_head
  drop_head-IsSorted [] m e s = rw (e, drop_head) (erase-IsSorted c m s)
  drop_head-IsSorted (f ∷ q) m e s = rw (e, drop_head) (upsert-IsSorted c (λ _. f ∷ q) m s)

  drop_head-Every :
      (n : ℕ) (q : TaskMap J) (m : ByClass J)
      → find c m ≡ some ((k, t) ∷ q)
      → Every (IsQueue n) m
      → Every (IsQueue n) (drop_head c m)
  unfolding drop_head
  drop_head-Every n [] m e b = rw (e, drop_head) (erase-Every (IsQueue n) c m b)
  drop_head-Every n (f ∷ q) m e b =
      let whole : IsQueue n c ((k, t) ∷ f ∷ q) = find-Every (IsQueue n) c m e b in
      let kept : IsQueue n c (f ∷ q) = (tt, whole.1.1) in
      rw (e, drop_head) (upsert-Every (IsQueue n) c (λ _. f ∷ q) m kept (λ _ _. kept) b)

module _ {J : Type 0} (n : ℕ) (c : TaskClass) (tasks : SizeMap J) where
  -- Putting back what is left of the group.
  put_back : ByClass J → SizeMap J
  put_back [] = erase n tasks
  put_back (e ∷ m) = insert n (e ∷ m) tasks

  put_back-weight :
      (w : ByClass J → ℕ) (m rest : ByClass J)
      → w [] ≡ 0
      → find n tasks ≡ some m
      → IsSorted tasks
      → weight w (put_back rest) + w m ≡ weight w tasks + w rest
  unfolding put_back
  put_back-weight w m [] z e s = omega (arith, rw e at (weight-erase w n tasks))
  put_back-weight w m (x ∷ rest) z e s = rw e at (weight-upsert w n (λ _. x ∷ rest) tasks s)

  put_back-IsTidy :
      (rest : ByClass J)
      → IsSorted rest
      → Every (IsQueue n) rest
      → IsTidy tasks
      → IsTidy (put_back rest)
  unfolding put_back
  put_back-IsTidy [] s b (sorted, every) =
      (erase-IsSorted n tasks sorted, erase-Every IsGroup n tasks every)
  put_back-IsTidy (x ∷ rest) s b (sorted, every) = (
    upsert-IsSorted n (λ _. x ∷ rest) tasks sorted,
    upsert-Every IsGroup n (λ _. x ∷ rest) tasks (tt, s, b) (λ _ _. (tt, s, b)) every,
  )

  take_task-put_back :
      (m : ByClass J) → find n tasks ≡ some m → take_task n c tasks ≡ put_back (drop_head c m)
  unfolding take_task put_back
  take_task-put_back m e = ground arith

module _ {J : Type 0} (n : ℕ) (c : TaskClass) (k : ℕ) (t : Task J) (q : TaskMap J) where
  module _ (m : ByClass J) (tasks : SizeMap J) where
    -- The task taken was queued once, and the others stay as they were.
    pub queued-take_task :
        (w : Task J → ℕ)
        → find n tasks ≡ some m
        → find c m ≡ some ((k, t) ∷ q)
        → IsTidy tasks
        → w t + queued w (take_task n c tasks) ≡ queued w tasks
    queued-take_task w e f (s, b) = rw (take_task-put_back n c tasks m e) (
        omega (
          arith,
          put_back-weight n c tasks (weight (tally w)) m (drop_head c m) refl e s,
          drop_head-weight c k t w q m f (find-Every IsGroup n tasks e b).1,
        ))

    pub take_task-IsTidy :
        find n tasks ≡ some m
        → find c m ≡ some ((k, t) ∷ q)
        → IsTidy tasks
        → IsTidy (take_task n c tasks)
    take_task-IsTidy e f tidy =
        let (cons, sorted, every) = find-Every IsGroup n tasks e tidy.1 in
        rw (take_task-put_back n c tasks m e) (
          put_back-IsTidy n c tasks (drop_head c m) (drop_head-IsSorted c k t q m f sorted)
            (drop_head-Every c k t n q m f every) tidy)
