-- ===== src/Context/Pool.antt =====
-- How the pool of es3/context.cpp hands out connections.
use extremes.Base.{
  Option, none, ℕ, ◌+◌, ◌<◌, ◌≡◌, ap, some, Bytes, arith, leb, nat_key, bytes_key, nat_refl,
  Bool-cases, Option-cases, inl, inr,
}
use extremes.Base.Map.{Map, find, erase, insert, find-insert}
use extremes.Errors.{Result, ok, throw}
use extremes.Context.{
  init_curl, Context, get_curl, make_curl, count_of, max_curl_reuse_count, idle, pop_back, key_of,
}

found_self : {V : Type 0} (k : ℕ) (v : V) (m : Map ℕ V) → find k (insert k v m) ≡ some v
found_self k v m = ground (arith, find-insert k k v m, nat_refl k)

-- Entered as borrowed under this key, and handed out less often than the limit.
abbrev IsLent : Bytes → Result ℕ × Context → Type 0
IsLent key (throw e, c) = Unit
IsLent key (ok h, c) =
    (find h c.borrowed_curls ≡ some key) × (count_of (find h c.use_counts) < max_curl_reuse_count)

made-IsLent : (key : Bytes) (fresh : ℕ) (c : Context) → IsLent key (ok fresh, make_curl key fresh c)
unfolding make_curl
made-IsLent key fresh c =
    let one : count_of (find fresh (insert fresh 1 c.use_counts)) ≡ 1 =
      ap count_of (found_self fresh 1 c.use_counts) in
    (found_self fresh key c.borrowed_curls, omega (arith, one))

init_curl-IsLent :
    (key : Bytes) (fresh : Option ℕ) (c : Context) → IsLent key (init_curl key fresh c)
unfolding init_curl
init_curl-IsLent key none c = tt
init_curl-IsLent key (some fresh) c = made-IsLent key fresh c

-- A handle that is handed out is entered as borrowed for the server that was asked for, and has been
-- handed out at most three times since it was made, this time included.
get_curl-IsLent :
    (zone bucket : Bytes) (fresh : Option ℕ) (c : Context)
    → IsLent (key_of zone bucket) (get_curl zone bucket fresh c)
unfolding get_curl
get_curl-IsLent zone bucket fresh c =
    let key = key_of zone bucket in
    elim (Option-cases (pop_back (idle (find key c.curls)))) [
      | inl empty ↦
          rw (empty, get_curl)
            (init_curl-IsLent key fresh
              (record c { curls = insert key (idle (find key c.curls)) c.curls }))
      | inr ((front, res), some_idle) ↦
          let uses = count_of (find res c.use_counts) + 1 in
          elim (Bool-cases (leb max_curl_reuse_count uses)) [
            | inl worn ↦
                rw (some_idle, worn, get_curl)
                  (init_curl-IsLent key fresh (record c {
                    curls = insert key front c.curls;
                    error_bufs = erase res c.error_bufs;
                    use_counts = erase res c.use_counts;
                  }))
            | inr good ↦
                let now : count_of (find res (insert res uses c.use_counts)) ≡ uses =
                  ap count_of (found_self res uses c.use_counts) in
                let below : uses < max_curl_reuse_count = ground arith in
                rw (some_idle, good, get_curl)
                  (found_self res key c.borrowed_curls, omega (arith, now, below))
          ]
    ]
