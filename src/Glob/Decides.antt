-- ===== src/Glob/Decides.antt =====
-- The search decides the relation.
use extremes.Base.{
  ℕ, zero, suc, ◌+◌, ◌≡◌, refl, subst, inl, inr, Bool, true, false, List, [], ◌∷◌, Bytes, ◌==◌,
  if◌then◌else◌, Bool-cases, ◌⊎◌, length,
}
use extremes.Glob.{
  Result, ok, fail, ◌>>=◌, Test, accepts, read_test, try_suffixes, match_one, match_impl,
  pattern_match,
}
use extremes.Glob.Items.{Item, star, one, Matches, done, eat, stop, more, items_within, items}

-- The run ended with an answer, and the answer is right about `G`.
abbrev pub Decides : Type 0 → Result Bool → Type 0
Decides G (ok true) = G
Decides G (ok false) = ¬ G
Decides G (fail _) = ⊥

-- A bind that succeeds has two parts that do.
succeeded {ℓ} :
    {V W : Type ℓ} (w : W) (onward : V → Result W) (first : Result V)
    → first >>= onward ≡ ok w
    → (v : V) × (onward v ≡ ok w) × (first ≡ ok v)
succeeded w onward (ok v) e = (v, e, refl)
succeeded w onward (fail why) e = cc

-- After a failure on every suffix of `s`, the star would have to end here.
star_inv :
    {p : List Item} {c : ℕ} {s : Bytes}
    → Matches (star ∷ p) (c ∷ s)
    → Matches p (c ∷ s) ⊎ Matches (star ∷ p) s
star_inv (stop m) = inl m
star_inv (more m) = inr m

star_nil : {p : List Item} → Matches (star ∷ p) [] → Matches p []
star_nil (stop m) = m

eat_inv :
    {p : List Item} {t : Test} {c : ℕ} {s : Bytes}
    → Matches (one t ∷ p) (c ∷ s)
    → (accepts t c ≡ true) × Matches p s
eat_inv (eat a m) = (a, m)

module _ (p : List Item) (attempt : Bytes → Result Bool) where
  last_try :
      (c : ℕ) (s : Bytes) (r : Result Bool)
      → ¬ Matches (star ∷ p) s
      → Decides (Matches p (c ∷ s)) r
      → Decides (Matches (star ∷ p) (c ∷ s)) r
  last_try c s (ok true) none m = stop m
  last_try c s (ok false) none n = λ m. elim (star_inv m) [ inl a ↦ n a | inr b ↦ none b ]
  last_try c s (fail e) none m = m

  after_shorter :
      (c : ℕ) (s : Bytes) (r : Result Bool)
      → Decides (Matches (star ∷ p) s) r
      → Decides (Matches p (c ∷ s)) (attempt (c ∷ s))
      → Decides
          (Matches (star ∷ p) (c ∷ s))
          (r >>= λ found. if found then ok true else attempt (c ∷ s))
  after_shorter c s (ok true) m d = more m
  after_shorter c s (ok false) n d = last_try c s (attempt (c ∷ s)) n d
  after_shorter c s (fail e) m d = m

  at_end : (r : Result Bool) → Decides (Matches p []) r → Decides (Matches (star ∷ p) []) r
  at_end (ok true) m = stop m
  at_end (ok false) n = λ m. n (star_nil m)
  at_end (fail e) m = m

  try_suffixes-Decides :
      ((s : Bytes) → Decides (Matches p s) (attempt s))
      → (s : Bytes) → Decides (Matches (star ∷ p) s) (try_suffixes attempt s)
  unfolding try_suffixes
  try_suffixes-Decides h [] = at_end (attempt []) (h [])
  try_suffixes-Decides h (c ∷ s) =
      after_shorter c s (try_suffixes attempt s) (try_suffixes-Decides h s) (h (c ∷ s))

-- One element against the first byte.
module _ (t : Test) (p : List Item) (after : Bytes) (onward : Bytes → Bytes → Result Bool) where
  eat-Decides :
      (c : ℕ) (s : Bytes)
      → ((u : Bytes) → Decides (Matches p u) (onward after u))
      → Decides (Matches (one t ∷ p) (c ∷ s)) (if accepts t c then onward after s else ok false)
  eat-Decides c s h = elim (Bool-cases (accepts t c)) [
    | inl yes_ ↦ rw yes_ (accepted (onward after s) yes_ (h s))
    | inr no_ ↦ rw no_ (λ m. let e = (eat_inv m).0 in cc)
  ]
    where
      accepted :
          (r : Result Bool)
          → accepts t c ≡ true
          → Decides (Matches p s) r
          → Decides (Matches (one t ∷ p) (c ∷ s)) r
      accepted (ok true) e m = eat e m
      accepted (ok false) e n = λ m. n (eat_inv m).1
      accepted (fail x) e m = m

  match_one-Decides :
      (x : ℕ) (rest : Bytes)
      → read_test x rest ≡ ok (t, after)
      → ((u : Bytes) → Decides (Matches p u) (onward after u))
      → (s : Bytes) → Decides (Matches (one t ∷ p) s) (match_one x rest s onward)
  unfolding match_one
  match_one-Decides x rest e h [] = λ m. elim m [ ]
  match_one-Decides x rest e h (c ∷ s) = rw (e, match_one) (eat-Decides c s h)

-- What the induction gives for the rest of the pattern, on less fuel.
abbrev Rest : ℕ → Type 0
Rest f =
    (ptn : Bytes) (p : List Item)
    → items_within f ptn ≡ ok p
    → (s : Bytes) → Decides (Matches p s) (match_impl f ptn s)

star_case :
    (f : ℕ) (rest : Bytes) (p : List Item) (s : Bytes)
    → Rest f
    → (items_within f rest >>= λ q. ok (star ∷ q)) ≡ ok p
    → Decides (Matches p s) (try_suffixes (match_impl f rest) s)
star_case f rest p s ih e =
    let (q, same, read) = succeeded p (λ q. ok (star ∷ q)) (items_within f rest) e in
    let cut : star ∷ q ≡ p = cc in
    subst (λ r. Decides (Matches r s) (try_suffixes (match_impl f rest) s)) cut
      (try_suffixes-Decides q (match_impl f rest) (ih rest q read) s)

one_case :
    (f x : ℕ) (rest : Bytes) (p : List Item) (s : Bytes)
    → Rest f
    → (read_test x rest >>= λ (t, after). items_within f after >>= λ q. ok (one t ∷ q)) ≡ ok p
    → Decides (Matches p s) (match_one x rest s (match_impl f))
one_case f x rest p s ih e =
    let ((t, after), e', test) = succeeded p _ (read_test x rest) e in
    let (q, same, read) = succeeded p (λ q. ok (one t ∷ q)) (items_within f after) e' in
    let cut : one t ∷ q ≡ p = cc in
    subst (λ r. Decides (Matches r s) (match_one x rest s (match_impl f))) cut
      (match_one-Decides t q after (match_impl f) x rest test (ih after q read) s)

match_impl-Decides : (f : ℕ) → Rest f
unfolding items_within match_impl
match_impl-Decides zero ptn p e s = cc
match_impl-Decides (suc f) [] p e [] =
    let cut : [] ≡ p = cc in subst (λ r. Decides (Matches r []) (ok true)) cut done
match_impl-Decides (suc f) [] p e (c ∷ s) =
    let cut : [] ≡ p = cc in
    subst (λ r. Decides (Matches r (c ∷ s)) (ok false)) cut (λ m. elim m [ ])
match_impl-Decides (suc f) (x ∷ rest) p e s = elim (Bool-cases (x == b'*')) [
  | inl is_star ↦
      rw (is_star, match_impl)
        (star_case f rest p s (match_impl-Decides f) (rw (is_star, items_within) at e))
  | inr other ↦
      rw (other, match_impl)
        (one_case f x rest p s (match_impl-Decides f) (rw (other, items_within) at e))
]

-- On a pattern that can be read to its end without an error, the search stops within its fuel,
-- raises nothing on any text, and answers whether the whole text matches the elements read.
pub pattern_match-Decides :
    (ptn : Bytes) (p : List Item)
    → items ptn ≡ ok p
    → (s : Bytes) → Decides (Matches p s) (pattern_match ptn s)
unfolding items pattern_match
pattern_match-Decides ptn p e s = match_impl-Decides (length ptn + 1) ptn p e s
