-- ===== src/Agenda/Claims.antt =====
-- What a claimed task has to be.
use extremes.Base.{
  ℕ, ◌≤◌, ◌<◌, ◌≡◌, refl, sym, ap, subst, inl, inr, false, [], ◌∷◌, Option, none, some, arith, leb,
  Option-cases, Bool-cases, nat_key,
}
use extremes.Base.Map.{Map, find, Above, IsSorted, find-Every, find-cons-Above}
use extremes.Agenda.Tasks.{Task, TaskClass, class_key}
use extremes.Agenda.{
  TaskMap, ByClass, SizeMap, Agenda, claimed, choose_group, last_entry, head_task, select, start,
  available, claim, claim_from, take_selected,
}
use mathlib.Core.Option.{some-injective}
use extremes.Agenda.Queue.{IsQueue, IsGroup, IsTidy}

module _ {J : Type 0} where
  last_entry-find :
      (n : ℕ) (m : ByClass J) (rest : SizeMap J)
      → IsSorted ((n, m) ∷ rest)
      → find (last_entry (n, m) rest).0 ((n, m) ∷ rest) ≡ some (last_entry (n, m) rest).1
  unfolding last_entry find
  last_entry-find n m [] s = ground arith
  last_entry-find n m ((j, v) ∷ rest) s =
      find-cons-Above (last_entry (j, v) rest).0 n (last_entry (j, v) rest).1 m ((j, v) ∷ rest) s.0
        (last_entry-find j v rest s.1)

  -- The group chosen is one of the queue, and its tasks fit.
  pub choose_group-find :
      (avail n : ℕ) (m : ByClass J) (tasks : SizeMap J)
      → IsSorted tasks
      → choose_group avail tasks ≡ some (n, m)
      → (find n tasks ≡ some m) × (n ≤ avail)
  unfolding choose_group find
  choose_group-find avail n m [] s e = cc
  choose_group-find avail n m ((j, v) ∷ rest) s e = ground (arith, last_entry-find j v rest s)

  -- A class was picked below its limit, with a task in the group.
  abbrev Picked : (TaskClass → ℕ) → ByClass J → Map TaskClass ℕ → TaskClass → Task J → Type 0
  Picked limits m classes c t =
      (busy : ℕ) × (find c classes ≡ some busy)
      × (busy < limits c)
      × (head_task (find c m) ≡ some t)

  Picked-later :
      (limits : TaskClass → ℕ) (m : ByClass J) (d : TaskClass) (busy : ℕ) (rest : Map TaskClass ℕ)
      (c : TaskClass) (t : Task J)
      → Above d rest
      → Picked limits m rest c t
      → Picked limits m ((d, busy) ∷ rest) c t
  Picked-later limits m d busy rest c t a (b, f, h, k) =
      (b, find-cons-Above c d b busy rest a f, h, k)

  select-Picked :
      (limits : TaskClass → ℕ) (n : ℕ) (m : ByClass J) (classes : Map TaskClass ℕ) (i : ℕ)
      (c : TaskClass) (t : Task J)
      → IsSorted classes
      → select limits (some (n, m)) classes ≡ some (i, c, t)
      → (i ≡ n) × Picked limits m classes c t
  unfolding select
  select-Picked limits n m [] i c t s e = cc
  select-Picked limits n m ((d, busy) ∷ rest) i c t s e = elim (Bool-cases (leb (limits d) busy)) [
    | inl full ↦ further (select-Picked limits n m rest i c t s.1 (ground arith))
    | inr free ↦ elim (Option-cases (head_task (find d m))) [
      | inl empty ↦ further (select-Picked limits n m rest i c t s.1 (ground arith))
      | inr (u, found) ↦ here free u found (ground arith)
    ]
  ]
    where
      further :
          (i ≡ n) × Picked limits m rest c t → (i ≡ n) × Picked limits m ((d, busy) ∷ rest) c t
      further (same, p) = (same, Picked-later limits m d busy rest c t s.0 p)

      here :
          leb (limits d) busy ≡ false
          → (u : Task J) → head_task (find d m) ≡ some u
          → ◌≡◌ {A = Option (ℕ × TaskClass × Task J)} (some (n, d, u)) (some (i, c, t))
          → (i ≡ n) × Picked limits m ((d, busy) ∷ rest) c t
      here free u found same =
          (ground arith, (busy, ground (arith, first), ground arith, ground arith))
        where
          first : find d ((d, busy) ∷ rest) ≡ some busy
          first = unfold find in ground (arith, class_key.cmp_refl d)

  -- The queue that a head stands in.
  head_task-find :
      (o : Option (TaskMap J)) (t : Task J)
      → head_task o ≡ some t
      → (k : ℕ) × (q : TaskMap J) × (o ≡ some ((k, t) ∷ q))
  head_task-find none t e = cc
  head_task-find (some []) t e = cc
  head_task-find (some ((k, u) ∷ q)) t e =
      let same : u ≡ t = some-injective u t e in (k, q, ap (λ v. some ((k, v) ∷ q)) same)

  -- What a worker that is handed `t` with `n` segments can rely on.
  pub record IsClaimed (a : Agenda J) (t : Task J) (n : ℕ) (b : Agenda J) : Type 0 where
    pub needs : t.needs ≡ n
    pub fits : n ≤ available a
    pub place :
        (k : ℕ) × (q : TaskMap J) × (m : ByClass J) × (find n a.tasks ≡ some m)
        × (find t.class m ≡ some ((k, t) ∷ q))
    pub busy : (r : ℕ) × (find t.class a.classes ≡ some r) × (r < a.limits t.class)
    pub after : b ≡ start n t.class a

  Picked-IsClaimed :
      (a : Agenda J) (n : ℕ) (m : ByClass J) (c : TaskClass) (t : Task J)
      → IsTidy a.tasks
      → find n a.tasks ≡ some m
      → n ≤ available a
      → Picked a.limits m a.classes c t
      → IsClaimed a t n (start n c a)
  Picked-IsClaimed a n m c t tidy f fit (r, listed, below, head) =
      let (k, q, found) = head_task-find (find c m) t head in
      let group = find-Every IsGroup n a.tasks f tidy.1 in
      let queue = find-Every (IsQueue n) c m found group.2 in
      let (needs, same, _) = queue.1.0 in
      record {
        needs = needs;
        fits = fit;
        place = (k, q, m, f, subst (λ d. find d m ≡ some ((k, t) ∷ q)) (sym same) found);
        busy = (
          r,
          subst (λ d. find d a.classes ≡ some r) (sym same) listed,
          subst (λ d. r < a.limits d) (sym same) below,
        );
        after = ap (λ d. start n d a) (sym same);
      }

  IsClaimed-same :
      (a : Agenda J) {t u : Task J} {n i : ℕ} {b x : Agenda J}
      → u ≡ t
      → i ≡ n
      → x ≡ b
      → IsClaimed a u i x
      → IsClaimed a t n b
  IsClaimed-same a {t} {u} {n} {i} {b} {x} p q r h =
      subst (λ v. IsClaimed a v n b) p
        (subst (λ v. IsClaimed a u v b) q (subst (λ v. IsClaimed a u i v) r h))

  select-none : (limits : TaskClass → ℕ) (m : Map TaskClass ℕ) → select {J = J} limits none m ≡ none
  unfolding select
  select-none limits [] = refl
  select-none limits (x ∷ m) = refl

  selected-IsClaimed :
      (a : Agenda J) (g : Option (ℕ × ByClass J)) (o : Option (ℕ × TaskClass × Task J))
      → choose_group (available a) a.tasks ≡ g
      → select a.limits g a.classes ≡ o
      → IsTidy a.tasks
      → IsSorted a.classes
      → {t : Task J} {n : ℕ} {b : Agenda J} → take_selected a o ≡ claimed t n b
      → IsClaimed a t n b
  selected-IsClaimed a g none e f tidy s h = cc
  selected-IsClaimed a none (some (i, c, u)) e f tidy s h = cc (select-none a.limits a.classes)
  selected-IsClaimed a (some (n, m)) (some (i, c, u)) e f tidy s h =
      let (same, picked) = select-Picked a.limits n m a.classes i c u s f in
      let (found, fit) = choose_group-find (available a) n m a.tasks tidy.0 e in
      IsClaimed-same a (cc) (cc) (cc) (Picked-IsClaimed a n m c u tidy found fit picked)

  claim_from-IsClaimed :
      (a : Agenda J) (tasks : SizeMap J) {t : Task J} {n : ℕ} {b : Agenda J}
      → a.tasks ≡ tasks
      → IsTidy a.tasks
      → IsSorted a.classes
      → claim_from a tasks ≡ claimed t n b
      → IsClaimed a t n b
  unfolding claim_from
  claim_from-IsClaimed a [] same tidy s h = ground arith
  claim_from-IsClaimed a (e ∷ m) same tidy s h = selected-IsClaimed a _ _ (rw same) refl tidy s h

  -- Where the queue and the class counts are in order and `claim_task` hands out a task: the task heads
  -- the queue of its class in the group of its segment need, the need fits into the free segments, its
  -- class is below its limit, and the new state is the old one with that task taken and counted.
  pub claim-IsClaimed :
      (a : Agenda J) {t : Task J} {n : ℕ} {b : Agenda J}
      → IsTidy a.tasks
      → IsSorted a.classes
      → claim a ≡ claimed t n b
      → IsClaimed a t n b
  unfolding claim
  claim-IsClaimed a tidy s h = claim_from-IsClaimed a a.tasks refl tidy s h
