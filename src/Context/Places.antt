-- ===== src/Context/Places.antt =====
-- What is kept of the places of a handle when es3/context.cpp takes it from a list or makes it.
use extremes.Base.{ℕ, ◌+◌, ◌≡◌, refl, List, [], none, some, Bytes, arith, nat_key, bytes_key}
use extremes.Base.Map.{Map, find, erase, insert, IsSorted, weight, upsert-IsSorted, erase-IsSorted}
use extremes.Context.{Context, make_curl, idle, pop_back}
use extremes.Context.Counts.{
  count, held, held-most, held-insert, held-erase, one_self, pop_back-count, weight-idle,
}

-- The number of places in which a handle is: the lists of idle ones, and the map of the lent ones.
abbrev pub places : ℕ → Context → ℕ
places h c = weight (count h) c.curls + held h c.borrowed_curls

-- Every handle is in one place while it has a buffer, and in none without.
pub record Owned (c : Context) : Type 0 where
  pub curls : IsSorted c.curls
  pub borrowed : IsSorted c.borrowed_curls
  pub bufs : IsSorted c.error_bufs
  pub exact : (h : ℕ) → places h c ≡ held h c.error_bufs

pub make_curl-Owned :
    (key : Bytes) (fresh : ℕ) (c : Context)
    → Owned c
    → held fresh c.error_bufs ≡ 0
    → Owned (make_curl key fresh c)
unfolding make_curl
make_curl-Owned key fresh c o no_buf =
    let at_fresh = o.exact fresh in
    let free : held fresh c.borrowed_curls ≡ 0 = omega (arith, at_fresh, no_buf) in
    record {
      curls = o.curls;
      borrowed = upsert-IsSorted fresh (λ _. key) c.borrowed_curls o.borrowed;
      bufs = upsert-IsSorted fresh (λ _. []) c.error_bufs o.bufs;
      exact = λ h. omega (
        arith,
        o.exact h,
        held-insert h fresh key c.borrowed_curls free,
        held-insert h fresh [] c.error_bufs no_buf,
      );
    }

-- The handle that `get_curl` takes from the list has a buffer and is not lent.
pub popped :
    (key : Bytes) (front : List ℕ) (res : ℕ) (c : Context)
    → Owned c
    → pop_back (idle (find key c.curls)) ≡ some (front, res)
    → (held res c.error_bufs ≡ 1) × (held res c.borrowed_curls ≡ 0)
popped key front res c o e =
    let all = o.exact res in
    let self = one_self res in
    let split = pop_back-count res (idle (find key c.curls)) front res e in
    let moved = weight-idle res key [] c.curls o.curls in
    let most = held-most res c.error_bufs in
    (omega (arith, all, self, split, moved, most), omega (arith, all, self, split, moved, most))

-- A handle that has left the list, and has been cleaned up.
pub cleaned-Owned :
    (key : Bytes) (front : List ℕ) (res : ℕ) (c : Context)
    → Owned c
    → pop_back (idle (find key c.curls)) ≡ some (front, res)
    → Owned (record c {
      curls = insert key front c.curls;
      error_bufs = erase res c.error_bufs;
      use_counts = erase res c.use_counts;
    })
cleaned-Owned key front res c o e =
    let (live, _) = popped key front res c o e in
    record {
      curls = upsert-IsSorted key (λ _. front) c.curls o.curls;
      borrowed = o.borrowed;
      bufs = erase-IsSorted res c.error_bufs o.bufs;
      exact = λ h. omega (
        arith,
        o.exact h,
        pop_back-count h (idle (find key c.curls)) front res e,
        weight-idle h key front c.curls o.curls,
        held-erase h res c.error_bufs o.bufs (omega (arith, live)),
      );
    }

-- A handle that has left the list, and is lent.
pub lent-Owned :
    (key : Bytes) (front : List ℕ) (res uses : ℕ) (c : Context)
    → Owned c
    → pop_back (idle (find key c.curls)) ≡ some (front, res)
    → Owned (record c {
      curls = insert key front c.curls;
      use_counts = insert res uses c.use_counts;
      borrowed_curls = insert res key c.borrowed_curls;
    })
lent-Owned key front res uses c o e =
    let (_, free) = popped key front res c o e in
    record {
      curls = upsert-IsSorted key (λ _. front) c.curls o.curls;
      borrowed = upsert-IsSorted res (λ _. key) c.borrowed_curls o.borrowed;
      bufs = o.bufs;
      exact = λ h. omega (
        arith,
        o.exact h,
        pop_back-count h (idle (find key c.curls)) front res e,
        weight-idle h key front c.curls o.curls,
        held-insert h res key c.borrowed_curls free,
      );
    }

pub touched-Owned :
    (key : Bytes) (c : Context)
    → Owned c
    → Owned (record c { curls = insert key (idle (find key c.curls)) c.curls })
touched-Owned key c o = record {
  curls = upsert-IsSorted key (λ _. idle (find key c.curls)) c.curls o.curls;
  borrowed = o.borrowed;
  bufs = o.bufs;
  exact =
      λ h. omega (arith, o.exact h, weight-idle h key (idle (find key c.curls)) c.curls o.curls);
}

pub not_held : {V : Type 0} (h : ℕ) (m : Map ℕ V) → find h m ≡ none → held h m ≡ 0
not_held h m e = rw e refl
