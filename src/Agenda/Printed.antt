-- ===== src/Agenda/Printed.antt =====
-- es3/agenda.cpp: `print_queue` and `tasks_count` against the counters.
use extremes.Base.{
  ℕ, ◌+◌, ◌≤◌, ◌<◌, ◌≡◌, ◌⊎◌, inl, inr, refl, [], ◌∷◌, arith, length, length-append, nat_key,
}
use extremes.Base.Map.{weight, Every}
use extremes.Agenda.{TaskMap, ByClass, SizeMap}
use extremes.Agenda.Display.{in_map, in_classes, in_sizes, tasks_count}
use extremes.Agenda.Queue.{IsGroup, queued, tally}
use extremes.Agenda.System.{System, Reach, Reach-boot-Inv, boot, one}

module _ {J : Type 0} where
  in_map-tally : (q : TaskMap J) → length (in_map q) ≡ tally one q
  in_map-tally [] = refl
  in_map-tally ((k, t) ∷ q) = omega (arith, in_map-tally q)

  in_classes-weight : (m : ByClass J) → length (in_classes m) ≡ weight (tally one) m
  in_classes-weight [] = refl
  in_classes-weight ((c, q) ∷ m) =
      omega (arith, length-append (in_map q) (in_classes m), in_map-tally q, in_classes-weight m)

  in_sizes-queued : (m : SizeMap J) → length (in_sizes m) ≡ queued one m
  in_sizes-queued [] = refl
  in_sizes-queued ((n, g) ∷ m) =
      omega
        (arith, length-append (in_classes g) (in_sizes m), in_classes-weight g, in_sizes-queued m)

  in_classes-pos : (n : ℕ) (g : ByClass J) → IsGroup n g → 0 < length (in_classes g)
  in_classes-pos n [] h = elim h.0 [ ]
  in_classes-pos n ((c, []) ∷ m) h = elim h.2.0.0 [ ]
  in_classes-pos n ((c, (k, t) ∷ q) ∷ m) h =
      omega (arith, length-append (in_map ((k, t) ∷ q)) (in_classes m))

  in_sizes-groups : (m : SizeMap J) → Every IsGroup m → length m ≤ length (in_sizes m)
  in_sizes-groups [] h = omega arith
  in_sizes-groups ((n, g) ∷ m) h = omega (
    arith,
    length-append (in_classes g) (in_sizes m),
    in_classes-pos n g h.0,
    in_sizes-groups m h.1,
  )

  some_or_none : (m : SizeMap J) → (0 < length m) ⊎ (length (in_sizes m) ≡ 0)
  some_or_none [] = inr refl
  some_or_none (e ∷ m) = inl (omega arith)

-- In every reachable state `print_queue` prints as many tasks as were submitted and are neither in
-- work nor done; `tasks_count` is at most that number, and it is 0 only when no task is queued.
pub Reach-boot-printed :
    (J : Type 0) (num_unbound num_cpu num_io segment_size max_segments : ℕ) {u : System J}
    → Reach (boot J num_unbound num_cpu num_io segment_size max_segments) u
    → (length (in_sizes u.agenda.tasks) + u.agenda.num_working + u.agenda.num_done
        ≡ u.agenda.num_submitted)
      × (tasks_count u.agenda ≤ length (in_sizes u.agenda.tasks))
      × ((0 < tasks_count u.agenda) ⊎ (length (in_sizes u.agenda.tasks) ≡ 0))
Reach-boot-printed J n p i g m {u} r =
    let v = Reach-boot-Inv J n p i g m r in
    (
      omega (arith, v.balance, in_sizes-queued u.agenda.tasks),
      in_sizes-groups u.agenda.tasks (v.tidy.1),
      some_or_none u.agenda.tasks,
    )
