-- ===== src/Context.antt =====
-- es3/context.cpp: the pool of connections to the servers.
pub mod Counts
pub mod Places
pub mod Owners
pub mod Pool
use extremes.Base.{
  ℕ, ◌+◌, Bool, true, false, List, [], ◌∷◌, ◌++◌, Option, none, some, Bytes, codes, leb,
  if◌then◌else◌, nat_key, bytes_key,
}
use extremes.Errors.{Result, ok, throw, es3_exception, err_fatal}
use extremes.Base.Map.{Map, find, insert, upsert, erase}

abbrev pub max_curl_reuse_count : ℕ
max_curl_reuse_count = 4

-- The private fields of `conn_context`; a `CURL*` is a number. `error_bufs_` holds the text
-- of each buffer.
pub record Context : Type 0 where
  pub curls : Map Bytes (List ℕ)
  pub error_bufs : Map ℕ Bytes
  pub borrowed_curls : Map ℕ Bytes
  pub use_counts : Map ℕ ℕ

abbrev pub key_of : Bytes → Bytes → Bytes
key_of zone bucket = zone ++ codes "/" ++ bucket

abbrev pub idle : Option (List ℕ) → List ℕ
idle none = []
idle (some handles) = handles

abbrev pub count_of : Option ℕ → ℕ
count_of none = 0
count_of (some n) = n

-- `back` and `pop_back`: the last element, and the ones before it.
unfoldable pub pop_back : List ℕ → Option (List ℕ × ℕ)
pop_back [] = none
pop_back (x ∷ []) = some ([], x)
pop_back (x ∷ y ∷ xs) = elim (pop_back (y ∷ xs)) [
  | none ↦ none
  | some (front, last) ↦ some (x ∷ front, last)
]

-- The end of `get_curl`, for the handle that `curl_easy_init` gave.
unfoldable pub make_curl : Bytes → ℕ → Context → Context
unfolding upsert
make_curl key fresh c = record c {
  error_bufs = insert fresh [] c.error_bufs;
  use_counts = insert fresh 1 c.use_counts;
  borrowed_curls = insert fresh key c.borrowed_curls;
}

-- `curl_easy_init`, which may give a null pointer, and what follows.
unfoldable pub init_curl : Bytes → Option ℕ → Context → Result ℕ × Context
unfolding make_curl
init_curl key none c =
    (throw (es3_exception (record { code = err_fatal; desc = codes "can't init CURL" })), c)
init_curl key (some fresh) c = (ok fresh, make_curl key fresh c)

-- `get_curl`: the handle or an error, and the new state. `fresh` is what `curl_easy_init` gives if it
-- is called.
unfoldable pub get_curl : Bytes → Bytes → Option ℕ → Context → Result ℕ × Context
unfolding find upsert erase pop_back init_curl
get_curl zone bucket fresh c =
    let key = key_of zone bucket in
    elim (pop_back (idle (find key c.curls))) [
      | none ↦
          init_curl key fresh (record c { curls = insert key (idle (find key c.curls)) c.curls })
      | some (front, res) ↦
          let uses = count_of (find res c.use_counts) + 1 in
          if leb max_curl_reuse_count uses
          then init_curl key fresh (record c {
            curls = insert key front c.curls;
            error_bufs = erase res c.error_bufs;
            use_counts = erase res c.use_counts;
          })
          else (
            ok res,
            record c {
              curls = insert key front c.curls;
              use_counts = insert res uses c.use_counts;
              borrowed_curls = insert res key c.borrowed_curls;
            },
          )
    ]

-- `release_curl` of a borrowed handle; of another one `at` throws, and nothing changes.
unfoldable pub release_curl : ℕ → Context → Context
unfolding find upsert erase
release_curl curl c = elim (find curl c.borrowed_curls) [
  | none ↦ c
  | some key ↦ record c {
    borrowed_curls = erase curl c.borrowed_curls;
    curls = upsert key (λ handles. idle handles ++ curl ∷ []) c.curls;
  }
]

-- `taint`
unfoldable pub taint : ℕ → Context → Context
unfolding upsert
taint curl c = record c { use_counts = insert curl (max_curl_reuse_count + 1) c.use_counts }

-- `reset`, while no handle is borrowed. The use counts stay.
unfoldable pub reset : Context → Context
reset c = record c { curls = []; error_bufs = [] }
