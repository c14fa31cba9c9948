-- ===== src/Agenda/Progress.antt =====
-- When a worker gets a task, and when it may go home.
use extremes.Base.{
  ℕ, ◌≤◌, ◌<◌, ◌≡◌, refl, sym, ap, ◌∙◌, subst, false, List, [], ◌∷◌, Option, none, some, arith,
  nat_key, ◌=k◌, Bool-cases, Option-cases, inl, inr, leb, length,
}
use extremes.Base.Map.{Map, find, Every, find-Every}
use extremes.Agenda.Tasks.{Task, TaskClass, class_key}
use extremes.Agenda.{
  Agenda, ByClass, TaskMap, SizeMap, claimed, finished, start, or_zero, claim, claim_from,
  available, choose_group, last_entry, select, head_task, take_selected, init,
}
use extremes.Agenda.Queue.{IsGroup, queued}
use extremes.Agenda.Claims.{choose_group-find}
use extremes.Agenda.System.{System, Reach, Inv, boot, Reach-boot-Inv, boot-Inv, one, count_class}
use extremes.Agenda.Listed.{IsKnown, IsListed, Reach-Listed}

module _ {J : Type 0} where
  -- With nothing running, the first class of a group that is known is picked.
  select-found :
      (limits : TaskClass → ℕ) (n : ℕ) (m : ByClass J) (classes : Map TaskClass ℕ) (c : TaskClass)
      (busy : ℕ) (t : Task J)
      → find c classes ≡ some busy
      → busy < limits c
      → head_task (find c m) ≡ some t
      → (r : ℕ × TaskClass × Task J) × (select limits (some (n, m)) classes ≡ some r)
  unfolding select find
  select-found limits n m [] c busy t e h f = cc
  select-found limits n m ((d, k) ∷ rest) c busy t e h f = elim (Bool-cases (c =k d)) [
    | inl same ↦
        let at : c ≡ d = ground (arith, class_key.cmp_eq c d) in
        let head : head_task (find d m) ≡ some t =
          subst (λ x. head_task (find x m) ≡ some t) at f in
        let free : k < limits d = subst (λ x. k < limits x) at (ground arith) in
        let open_ : leb (limits d) k ≡ false = ground arith in ((n, d, t), rw (open_, head))
    | inr other ↦ either (select-found limits n m rest c busy t (ground arith) h f)
  ]
    where
      either :
          (r : ℕ × TaskClass × Task J) × (select limits (some (n, m)) rest ≡ some r)
          → (r : ℕ × TaskClass × Task J) × (select limits (some (n, m)) ((d, k) ∷ rest) ≡ some r)
      either (r, g) = elim (Bool-cases (leb (limits d) k)) [
        | inl full ↦ (r, rw full g)
        | inr free ↦ elim (Option-cases (head_task (find d m))) [
          | inl empty ↦ (r, rw (free, empty) g)
          | inr (u, head) ↦ ((n, d, u), rw (free, head))
        ]
      ]

  -- A group of a tidy queue has a task of a known class.
  group-head :
      (classes : Map TaskClass ℕ) (n : ℕ) (m : ByClass J)
      → IsGroup n m
      → Every (λ c (q : TaskMap J). IsKnown classes c) m
      → (c : TaskClass) × (t : Task J) × (head_task (find c m) ≡ some t) × IsKnown classes c
  unfolding find
  group-head classes n [] g l = absurd g.0
  group-head classes n ((c, []) ∷ m) g l = absurd g.2.0.0
  group-head classes n ((c, (k, t) ∷ q) ∷ m) g l = (c, t, ground (arith, class_key.cmp_refl c), l.0)

  choose_group-some :
      (avail n : ℕ) (m : ByClass J) (rest : SizeMap J)
      → n ≤ avail
      → (g : ℕ × ByClass J) × (choose_group avail ((n, m) ∷ rest) ≡ some g)
  unfolding choose_group
  choose_group-some avail n m rest h = elim (Bool-cases (leb (last_entry (n, m) rest).0 avail)) [
    | inl e ↦ (last_entry (n, m) rest, rw e)
    | inr e ↦ ((n, m), ground arith)
  ]

  count_class-nil : (c : TaskClass) (ts : List (Task J)) → ts ≡ [] → count_class c ts ≡ 0
  count_class-nil c ts e = rw e

  idle-select :
      (s : System J) (n : ℕ) (m : ByClass J)
      → Inv s
      → IsListed s.agenda.classes s.agenda.tasks
      → s.running ≡ []
      → ((c : TaskClass) → 0 < s.agenda.limits c)
      → find n s.agenda.tasks ≡ some m
      → (r : ℕ × TaskClass × Task J) × (select s.agenda.limits (some (n, m)) s.agenda.classes
          ≡ some r)
  idle-select s n m v l idle room found =
      let g = find-Every IsGroup n s.agenda.tasks found v.tidy.1 in
      let k =
        find-Every (λ i. Every (λ c (q : TaskMap J). IsKnown s.agenda.classes c)) n s.agenda.tasks
          found l in
      let (c, t, head, (busy, known)) = group-head s.agenda.classes n m g k in
      let none_busy : busy ≡ 0 =
        ap or_zero (sym known) ∙ v.counted c ∙ count_class-nil c s.running idle in
      select-found s.agenda.limits n m s.agenda.classes c busy t known (omega (arith, room c)) head

  idle-claim :
      (s : System J) (n : ℕ) (m : ByClass J) (rest : SizeMap J)
      → Inv s
      → IsListed s.agenda.classes s.agenda.tasks
      → s.running ≡ []
      → ((c : TaskClass) → 0 < s.agenda.limits c)
      → s.agenda.tasks ≡ (n, m) ∷ rest
      → n ≤ available s.agenda
      → (t : Task J) × (i : ℕ) × (b : Agenda J) × (claim s.agenda ≡ claimed t i b)
  unfolding claim claim_from
  idle-claim s n m rest v l idle room e fit =
      let a = s.agenda in
      let ((j, g), chosen) = choose_group-some (available a) n m rest fit in
      let chosen' : choose_group (available a) a.tasks ≡ some (j, g) =
        ap (choose_group (available a)) e ∙ chosen in
      let (found, _) = choose_group-find (available a) j g a.tasks v.tidy.0 chosen' in
      let ((i, c, t), picked) = idle-select s j g v l idle room found in
      (
        t,
        i,
        start i c a,
        ap (claim_from a) e
            ∙ ap (λ o. take_selected a (select a.limits o a.classes)) chosen
            ∙ ap (take_selected a) picked,
      )

-- No deadlock: however the workers got there, when no task is in work, every class may run at least
-- one, and the least size group of the queue fits into the free segments, a worker that asks is
-- handed a task.
pub claim-claimed :
    (J : Type 0) (num_unbound num_cpu num_io segment_size max_segments : ℕ) (u : System J) (n : ℕ)
    (m : ByClass J) (rest : SizeMap J)
    → Reach (boot J num_unbound num_cpu num_io segment_size max_segments) u
    → u.running ≡ []
    → ((c : TaskClass) → 0 < u.agenda.limits c)
    → u.agenda.tasks ≡ (n, m) ∷ rest
    → n ≤ available u.agenda
    → (t : Task J) × (i : ℕ) × (b : Agenda J) × (claim u.agenda ≡ claimed t i b)
unfolding init
claim-claimed J nu np ni g ms u n m rest r idle room e fit =
    idle-claim u n m rest (Reach-boot-Inv J nu np ni g ms r)
      (Reach-Listed (boot-Inv J nu np ni g ms) tt r) idle room e fit

claim_from-finished :
    {J : Type 0} (a : Agenda J) (tasks : SizeMap J)
    → claim_from a tasks ≡ finished
    → (tasks ≡ []) × (a.num_working ≡ 0)
unfolding claim_from
claim_from-finished {J} a [] e = ground arith
claim_from-finished {J} a (x ∷ m) e =
    absurd (never (select a.limits (choose_group (available a) (x ∷ m)) a.classes) e)
  where
    never : (o : Option (ℕ × TaskClass × Task J)) → take_selected a o ≡ finished → ⊥
    never none h = cc
    never (some (i, c, t)) h = cc

length-zero : {A : Type 0} (xs : List A) → length xs ≡ 0 → xs ≡ []
length-zero [] e = refl
length-zero (x ∷ xs) e = absurd (omega arith)

-- A worker ends only when every task ever submitted has been done and none is queued or in work.
pub claim-finished :
    (J : Type 0) (num_unbound num_cpu num_io segment_size max_segments : ℕ) (u : System J)
    → Reach (boot J num_unbound num_cpu num_io segment_size max_segments) u
    → claim u.agenda ≡ finished
    → (u.running ≡ []) × (u.agenda.tasks ≡ []) × (u.agenda.num_submitted ≡ u.agenda.num_done)
unfolding claim
claim-finished J nu np ni g ms u r e =
    let v = Reach-boot-Inv J nu np ni g ms r in
    let (empty, idle) = claim_from-finished u.agenda u.agenda.tasks e in
    let none_queued : queued one u.agenda.tasks ≡ 0 = ap (queued one) empty in
    (length-zero u.running (omega (arith, v.working)), empty, omega (arith, v.balance))
