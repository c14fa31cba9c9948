-- ===== src/Compress/Pending.antt =====
-- es3/compressor.cpp: `on_complete`, run by the threads that end their blocks.
use extremes.Base.{ℕ, zero, suc, ◌+◌, ◌-◌, ◌<◌, ◌≤◌, ◌≡◌, refl, subst, ◌==◌, arith, if◌then◌else◌}

-- `num_pending_`, the threads that have left the locked block and have not tested it yet, and the
-- calls of `on_finish_`. The name and the size that a thread stores under the lock are left out.
pub record Counter : Type 0 where
  pub num_pending : ℕ
  pub leaving : ℕ
  pub finishes : ℕ

-- The block under the lock, and the test behind it.
unfoldable pub count_down : Counter → Counter
count_down c = record c { num_pending = c.num_pending - 1; leaving = c.leaving + 1 }

unfoldable pub test_pending : Counter → Counter
test_pending c = record c {
  leaving = c.leaving - 1;
  finishes = if c.num_pending == 0 then c.finishes + 1 else c.finishes;
}

-- A thread counts down or tests; any thread may be next.
pub data Steps (c : Counter) : Counter → Type 0 where
  here : Steps c c
  counts : {d : Counter} → Steps c d → 0 < d.num_pending → Steps c (count_down d)
  tests : {d : Counter} → Steps c d → 0 < d.leaving → Steps c (test_pending d)

abbrev pub started : ℕ → Counter
started num_blocks = record { num_pending = num_blocks; leaving = 0; finishes = 0 }

abbrev pub ended : ℕ → Counter
ended finishes = record { num_pending = 0; leaving = 0; finishes = finishes }

abbrev at : ℕ → ℕ → ℕ → Counter
at num_pending leaving finishes = record {
  num_pending = num_pending;
  leaving = leaving;
  finishes = finishes;
}

at-eq : {p q l m f g : ℕ} → p ≡ q → l ≡ m → f ≡ g → at p l f ≡ at q m g
at-eq e h i = rw (e, h, i) refl

all_count : (n k : ℕ) → k ≤ n → Steps (started n) (at (n - k) k 0)
unfolding count_down
all_count n zero h = subst (Steps (started n)) (at-eq (omega arith) refl refl) here
all_count n (suc k) h =
    let pending : 0 < n - k = omega arith in
    subst (Steps (started n)) (at-eq (omega arith) (omega arith) refl)
      (counts (all_count n k (omega arith)) pending)

all_test : (n k : ℕ) → k ≤ n → Steps (started n) (at 0 (n - k) k)
unfolding test_pending
all_test n zero h =
    subst (Steps (started n)) (at-eq (omega arith) (omega arith) refl) (all_count n n (omega arith))
all_test n (suc k) h =
    let leaving : 0 < n - k = omega arith in
    subst (Steps (started n)) (at-eq refl (omega arith) (omega arith))
      (tests (all_test n k (omega arith)) leaving)

-- For a file of any number of blocks there is an order of the threads' steps in which each of them
-- calls `on_finish_`.
pub on_complete-finishes : (num_blocks : ℕ) → Steps (started num_blocks) (ended num_blocks)
on_complete-finishes n =
    subst (Steps (started n)) (at-eq refl (omega arith) refl) (all_test n n (omega arith))
