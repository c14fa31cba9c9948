-- ===== src/Context/Owners.antt =====
-- Where the handles of es3/context.cpp are: in one list of idle ones, lent, or cleaned up.
use extremes.Base.{
  ap, sym, ◌∙◌, refl, ℕ, ◌+◌, ◌≡◌, ◌⊎◌, refl, ap, inl, inr, List, [], ◌∷◌, ◌++◌, Option, none, some,
  Bytes, arith, leb, nat_key, bytes_key, Bool-cases, Option-cases,
}
use extremes.Base.Map.{find, erase, weight_at, weight-upsert, upsert-IsSorted, erase-IsSorted}
use extremes.Context.{
  init_curl, Context, get_curl, release_curl, taint, reset, max_curl_reuse_count, count_of, idle,
  pop_back, key_of,
}
use extremes.Context.Counts.{
  one, count, held, held-most, held-erase, one_self, count-append, at_idle,
}
use extremes.Context.Places.{
  places, Owned, make_curl-Owned, popped, cleaned-Owned, lent-Owned, touched-Owned, not_held,
}

-- `curl_easy_init` gives a null pointer, a handle without a buffer, or the one that `get_curl` has cleaned up before.
abbrev pub IsUnused : Bytes → Option ℕ → Context → Type 0
IsUnused key none c = Unit
IsUnused key (some fresh) c =
    (find fresh c.error_bufs ≡ none)
    ⊎ ((front : List ℕ) × (pop_back (idle (find key c.curls)) ≡ some (front, fresh)))

-- What the calls of `conn_context` make of a new one.
pub data Reached : Context → Type 0 where
  new :
      (c : Context)
      → c ≡ record { curls = []; error_bufs = []; borrowed_curls = []; use_counts = [] }
      → Reached c
  got :
      {c : Context} (zone bucket : Bytes) (fresh : Option ℕ)
      → Reached c
      → IsUnused (key_of zone bucket) fresh c
      → Reached (get_curl zone bucket fresh c).1
  released : {c : Context} (h : ℕ) → Reached c → Reached (release_curl h c)
  tainted : {c : Context} (h : ℕ) → Reached c → Reached (taint h c)
  emptied : {c : Context} → Reached c → c.borrowed_curls ≡ [] → Reached (reset c)

init_curl-Owned :
    (key : Bytes) (fresh : Option ℕ) (c : Context)
    → Owned c
    → ((h : ℕ) → fresh ≡ some h → held h c.error_bufs ≡ 0)
    → Owned (init_curl key fresh c).1
unfolding init_curl
init_curl-Owned key none c o free = o
init_curl-Owned key (some h) c o free = make_curl-Owned key h c o (free h refl)

-- The handle that `curl_easy_init` gives has no buffer, once the one from the list is cleaned up.
unused-empty :
    (key : Bytes) (fresh : Option ℕ) (h : ℕ) (c : Context)
    → IsUnused key fresh c
    → pop_back (idle (find key c.curls)) ≡ none
    → fresh ≡ some h
    → held h c.error_bufs ≡ 0
unused-empty key none h c unused empty e = cc
unused-empty key (some f) h c (inl free) empty e =
    let same : f ≡ h = cc in ap (λ g. held g c.error_bufs) (sym same) ∙ not_held f c.error_bufs free
unused-empty key (some f) h c (inr (front, last)) empty e = cc

unused-cleaned :
    (key : Bytes) (fresh : Option ℕ) (h : ℕ) (c : Context) (front : List ℕ) (res : ℕ)
    → Owned c
    → IsUnused key fresh c
    → pop_back (idle (find key c.curls)) ≡ some (front, res)
    → fresh ≡ some h
    → held h (erase res c.error_bufs) ≡ 0
unused-cleaned key none h c front res o unused some_idle e = cc
unused-cleaned key (some f) h c front res o unused some_idle e =
    let same : f ≡ h = cc in
    let (live, _) = popped key front res c o some_idle in
    let gone = held-erase f res c.error_bufs o.bufs (omega (arith, live)) in
    ap (λ g. held g (erase res c.error_bufs)) (sym same) ∙ elim unused [
      | inl free ↦ omega (arith, gone, not_held f c.error_bufs free)
      | inr (front', last) ↦
          let self : f ≡ res = cc in
          omega (arith, gone, held-most f c.error_bufs, ap (one f) self, one_self f)
    ]

get_curl-Owned :
    (zone bucket : Bytes) (fresh : Option ℕ) (c : Context)
    → Owned c
    → IsUnused (key_of zone bucket) fresh c
    → Owned (get_curl zone bucket fresh c).1
unfolding get_curl
get_curl-Owned zone bucket fresh c o unused =
    let key = key_of zone bucket in
    elim (Option-cases (pop_back (idle (find key c.curls)))) [
      | inl empty ↦
          rw (empty, get_curl)
            (init_curl-Owned key fresh _ (touched-Owned key c o)
              (λ h e. unused-empty key fresh h c unused empty e))
      | inr ((front, res), some_idle) ↦
          let uses = count_of (find res c.use_counts) + 1 in
          elim (Bool-cases (leb max_curl_reuse_count uses)) [
            | inl worn ↦
                rw (some_idle, worn, get_curl)
                  (init_curl-Owned key fresh _ (cleaned-Owned key front res c o some_idle)
                    (λ h e. unused-cleaned key fresh h c front res o unused some_idle e))
            | inr good ↦
                rw (some_idle, good, get_curl) (lent-Owned key front res uses c o some_idle)
          ]
    ]

release_curl-Owned : (h : ℕ) (c : Context) → Owned c → Owned (release_curl h c)
unfolding release_curl
release_curl-Owned h c o = elim (Option-cases (find h c.borrowed_curls)) [
  | inl e ↦ rw (e, release_curl) o
  | inr (key, e) ↦
      let f : Option (List ℕ) → List ℕ = λ handles. idle handles ++ h ∷ [] in
      let lent : held h c.borrowed_curls ≡ 1 = ap (weight_at (λ _. 1)) e in
      rw (e, release_curl)
        (record {
          curls = upsert-IsSorted key f c.curls o.curls;
          borrowed = erase-IsSorted h c.borrowed_curls o.borrowed;
          bufs = o.bufs;
          exact = λ g. omega (
            arith,
            o.exact g,
            weight-upsert (count g) key f c.curls o.curls,
            at_idle g (find key c.curls),
            count-append g (idle (find key c.curls)) (h ∷ []),
            held-erase g h c.borrowed_curls o.borrowed (omega (arith, lent)),
          );
        })
]

Reached-Owned : (c : Context) → Reached c → Owned c
unfolding taint reset find
Reached-Owned c (new _ e) =
    rw e (record { curls = tt; borrowed = tt; bufs = tt; exact = λ h. refl })
Reached-Owned c (got {c = d} zone bucket fresh r u) =
    get_curl-Owned zone bucket fresh d (Reached-Owned d r) u
Reached-Owned c (released {c = d} h r) = release_curl-Owned h d (Reached-Owned d r)
Reached-Owned c (tainted {c = d} h r) =
    let o = Reached-Owned d r in
    record { curls = o.curls; borrowed = o.borrowed; bufs = o.bufs; exact = o.exact }
Reached-Owned c (emptied {c = d} r e) =
    let o = Reached-Owned d r in
    record { curls = tt; borrowed = o.borrowed; bufs = tt; exact = λ h. rw e refl }

-- Whatever the calls on a pool are, and in whatever order, given that `curl_easy_init` gives a null
-- pointer, a handle without a buffer or the one that the call has cleaned up before: each handle with a buffer is in
-- one place, in one of the lists of idle handles or lent, and a handle without a buffer is in none.
pub Reached-places : (c : Context) → Reached c → (h : ℕ) → places h c ≡ held h c.error_bufs
Reached-places c r h = (Reached-Owned c r).exact h
