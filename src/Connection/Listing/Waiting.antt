-- ===== src/Connection/Listing/Waiting.antt =====
-- es3/connection.cpp: how many listings run at once.
use extremes.Base.{ℕ, zero, suc, ◌≤◌, ◌<◌, ◌≡◌, some, arith}
use extremes.Connection.Listing.{enter_list}

-- `num_lists_` after some entries and exits of `list_files_shallow`, in any order.
pub data Running (num_reqs : ℕ) : ℕ → Type 0 where
  idle : Running num_reqs 0
  enters : {n m : ℕ} → Running num_reqs n → enter_list num_reqs n ≡ some m → Running num_reqs m
  leaves : {n : ℕ} → Running num_reqs (suc n) → Running num_reqs n

enter-bound : (num_reqs n m : ℕ) → 0 < num_reqs → enter_list num_reqs n ≡ some m → m ≤ suc num_reqs
unfolding enter_list
enter-bound num_reqs n m h e = ground arith

running-bound : (num_reqs n : ℕ) → 0 < num_reqs → Running num_reqs n → n ≤ suc num_reqs
running-bound num_reqs n h idle = omega arith
running-bound num_reqs n h (enters {n = k} r e) = enter-bound num_reqs k n h e
running-bound num_reqs n h (leaves r) = omega (arith, running-bound num_reqs (suc n) h r)

enter-next : (num_reqs n : ℕ) → n ≤ num_reqs → enter_list num_reqs n ≡ some (suc n)
unfolding enter_list
enter-next num_reqs n h = ground arith

run-up : (num_reqs n : ℕ) → n ≤ suc num_reqs → Running num_reqs n
run-up num_reqs zero h = idle
run-up num_reqs (suc n) h =
    enters (run-up num_reqs n (omega arith)) (enter-next num_reqs n (omega arith))

-- With the option `concurrent_list_req_` at a number other than 0, never more than one listing more
-- than that number runs at once; and that many can.
running-most :
    (num_reqs : ℕ)
    → 0 < num_reqs
    → Running num_reqs (suc num_reqs) × ((n : ℕ) → Running num_reqs n → n ≤ suc num_reqs)
running-most num_reqs h =
    (run-up num_reqs (suc num_reqs) (omega arith), λ n r. running-bound num_reqs n h r)
