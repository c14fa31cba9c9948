-- ===== src/Agenda/Tasks.antt =====
-- es3/agenda.h: what the queue knows of a `sync_task`.
use extremes.Base.{ℕ, ◌≡◌, arith, Key, nat_key}
use Prim.Native.Nat.{compare, Ordering}

-- `task_type_e`
pub data TaskClass : Type 0 where
  unbound cpu_bound io_bound : TaskClass

-- The number of an enumerator, by which `std::map` orders the classes.
abbrev pub rank : TaskClass → ℕ
rank unbound = 0
rank cpu_bound = 1
rank io_bound = 2

pub class_eq : (a b : TaskClass) → compare (rank a) (rank b) ≡ Ordering.eq → a ≡ b
class_eq a b h = ground arith

instance abbrev pub class_key : Key TaskClass
class_key = record {
  cmp = λ a b. compare (rank a) (rank b);
  cmp_eq = class_eq;
  cmp_refl = λ a. nat_key.cmp_refl (rank a);
  cmp_flip = λ a b. nat_key.cmp_flip (rank a) (rank b);
  cmp_trans = λ a b c. nat_key.cmp_trans (rank a) (rank b) (rank c);
}

-- The virtual functions of a task that are constant over its life; `job` stands for its body.
-- `ordinal` is 0 in every class of the program, and so is never negative.
pub record Task (J : Type 0) : Type 0 where
  pub class : TaskClass
  pub needs : ℕ
  pub ordinal : ℕ
  pub job : J
