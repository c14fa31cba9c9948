-- ===== src/Agenda/Listed.antt =====
-- Every class with a queued task has its entry in `classes_`.
use extremes.Base.{
  ℕ, ◌≡◌, refl, sym, subst, [], ◌∷◌, Option, none, some, Bool-cases, inl, inr, ◌∙◌, nat_key, ◌=k◌,
}
use extremes.Base.Map.{
  Map, find, upsert, erase, insert, IsSorted, Every, find-upsert, upsert-Every, erase-Every,
  find-Every, find-upsert_self, Every-mono,
}
use extremes.Agenda.Tasks.{Task, TaskClass, class_key}
use extremes.Agenda.{
  Agenda, ByClass, TaskMap, SizeMap, start, bump, lower, or_zero, or_empty, schedule, enqueue,
  cleanup, release_segment, drop_head, take_task,
}
use extremes.Agenda.Claims.{claim-IsClaimed}
use extremes.Agenda.System.{
  System, Step, schedules, claims, finishes, releases, Reach, here, next, Inv, Reach-Inv,
}

abbrev pub IsKnown : Map TaskClass ℕ → TaskClass → Type 0
IsKnown classes c = (n : ℕ) × (find c classes ≡ some n)

IsKnown-upsert :
    (c d : TaskClass) (f : Option ℕ → ℕ) (m : Map TaskClass ℕ)
    → IsSorted m
    → IsKnown m c
    → IsKnown (upsert d f m) c
IsKnown-upsert c d f m s (n, e) = elim (Bool-cases (c =k d)) [
  | inl same ↦ (f (find d m), find-upsert c d f m s ∙ rw same)
  | inr other ↦ (n, find-upsert c d f m s ∙ rw other e)
]

IsKnown-upsert_self :
    (d : TaskClass) (f : Option ℕ → ℕ) (m : Map TaskClass ℕ) → IsSorted m → IsKnown (upsert d f m) d
IsKnown-upsert_self d f m s = (f (find d m), find-upsert_self d f m s)

module _ {J : Type 0} where
  abbrev GroupListed : Map TaskClass ℕ → ℕ → ByClass J → Type 0
  GroupListed classes n = Every (λ c (q : TaskMap J). IsKnown classes c)

  abbrev pub IsListed : Map TaskClass ℕ → SizeMap J → Type 0
  IsListed classes = Every (GroupListed classes)

  IsListed-mono :
      (classes later : Map TaskClass ℕ) (tasks : SizeMap J)
      → ((c : TaskClass) → IsKnown classes c → IsKnown later c)
      → IsListed classes tasks
      → IsListed later tasks
  IsListed-mono classes later tasks h =
      Every-mono (GroupListed classes) (GroupListed later) tasks
        (λ n m. Every-mono _ _ m (λ c q. h c))

  drop_head-listed :
      (classes : Map TaskClass ℕ) (n : ℕ) (c : TaskClass) (m : ByClass J)
      → IsKnown classes c
      → GroupListed classes n m
      → GroupListed classes n (drop_head c m)
  unfolding drop_head
  drop_head-listed classes n c m k l = of_queue (find c m)
    where
      P : TaskClass → TaskMap J → Type 0
      P d q = IsKnown classes d

      of_queue :
          (o : Option (TaskMap J))
          → Every P (elim o [
            | none ↦ m
            | some [] ↦ m
            | some (e ∷ []) ↦ erase c m
            | some (e ∷ f ∷ q) ↦ insert c (f ∷ q) m
          ])
      of_queue none = l
      of_queue (some []) = l
      of_queue (some (e ∷ [])) = erase-Every P c m l
      of_queue (some (e ∷ f ∷ q)) = upsert-Every P c (λ _. f ∷ q) m k (λ _ _. k) l

  take_task-IsListed :
      (classes : Map TaskClass ℕ) (n : ℕ) (c : TaskClass) (tasks : SizeMap J)
      → IsKnown classes c
      → IsListed classes tasks
      → IsListed classes (take_task n c tasks)
  unfolding take_task
  take_task-IsListed classes n c tasks k l = of_group (find n tasks) refl
    where
      put_back : ByClass J → SizeMap J
      put_back rest = elim rest [ [] ↦ erase n tasks | e ∷ m ↦ insert n (e ∷ m) tasks ]

      put_back-listed :
          (rest : ByClass J) → GroupListed classes n rest → IsListed classes (put_back rest)
      put_back-listed [] h = erase-Every (GroupListed classes) n tasks l
      put_back-listed (e ∷ m) h =
          upsert-Every (GroupListed classes) n (λ _. e ∷ m) tasks h (λ _ _. h) l

      of_group :
          (o : Option (ByClass J))
          → find n tasks ≡ o
          → IsListed classes (elim o [ none ↦ tasks | some m ↦ put_back (drop_head c m) ])
      of_group none e = l
      of_group (some m) e =
          put_back-listed (drop_head c m)
            (drop_head-listed classes n c m k (find-Every (GroupListed classes) n tasks e l))

  schedule-IsListed :
      (t : Task J) (a : Agenda J)
      → IsSorted a.classes
      → IsListed a.classes a.tasks
      → IsListed (schedule t a).classes (schedule t a).tasks
  unfolding schedule
  schedule-IsListed t a s l =
      let later = upsert t.class or_zero a.classes in
      let known : IsKnown later t.class = IsKnown-upsert_self t.class or_zero a.classes s in
      let old : IsListed later a.tasks =
        IsListed-mono a.classes later a.tasks
          (λ c k. IsKnown-upsert c t.class or_zero a.classes s k) l in
      let join = λ (q : Option (TaskMap J)). enqueue t (or_empty q) in
      let add = λ (m : ByClass J) (g : GroupListed later t.needs m).
        upsert-Every (λ c (q : TaskMap J). IsKnown later c) t.class join m known (λ _ _. known) g in
      upsert-Every (GroupListed later) t.needs (λ o. upsert t.class join (or_empty o)) a.tasks
        (add [] tt) add old

  abbrev Listed : System J → Type 0
  Listed s = IsListed s.agenda.classes s.agenda.tasks

  changed-Listed :
      (s : System J) (d : TaskClass) (f : Option ℕ → ℕ)
      → Inv s
      → Listed s
      → IsListed (upsert d f s.agenda.classes) s.agenda.tasks
  changed-Listed s d f v l =
      IsListed-mono s.agenda.classes (upsert d f s.agenda.classes) s.agenda.tasks
        (λ c k. IsKnown-upsert c d f s.agenda.classes v.sorted k) l

  Step-Listed : {s u : System J} → Step s u → Inv s → Listed s → Listed u
  unfolding start cleanup release_segment
  Step-Listed {s} (schedules t e) v l =
      subst Listed (sym e) (schedule-IsListed t s.agenda v.sorted l)
  Step-Listed {s} (claims t n b c e) v l =
      let f = claim-IsClaimed s.agenda v.tidy v.sorted c in
      let later = upsert t.class bump s.agenda.classes in
      let known : IsKnown later t.class =
        IsKnown-upsert_self t.class bump s.agenda.classes v.sorted in
      let started : IsListed later (take_task n t.class s.agenda.tasks) =
        take_task-IsListed later n t.class s.agenda.tasks known
          (changed-Listed s t.class bump v l) in
      subst Listed (sym e) (subst (λ x. IsListed x.classes x.tasks) (sym f.after) started)
  Step-Listed {s} (finishes t fail before after r e) v l =
      subst Listed (sym e) (changed-Listed s t.class lower v l)
  Step-Listed {s} (releases left h e) v l = subst Listed (sym e) l

  pub Reach-Listed : {s u : System J} → Inv s → Listed s → Reach s u → Listed u
  Reach-Listed v l here = l
  Reach-Listed v l (next r st) = Step-Listed st (Reach-Inv v r) (Reach-Listed v l r)
