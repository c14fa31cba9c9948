-- ===== src/Context/Counts.antt =====
-- How often the lists and maps of es3/context.cpp hold a handle.
use extremes.Base.{
  ℕ, ◌+◌, ◌<◌, ◌≤◌, ◌≡◌, refl, ap, inl, inr, List, [], ◌∷◌, ◌++◌, Option, none, some, Bytes, arith,
  nat_key, bytes_key, nat_refl, Option-cases, if◌then◌else◌, ◌=k◌,
}
use extremes.Base.Map.{
  Map, find, erase, insert, IsSorted, find-insert, find-Above, weight, weight_at, weight-upsert,
}
use extremes.Context.{idle, pop_back}

abbrev pub one : ℕ → ℕ → ℕ
one h k = if h =k k then 1 else 0

abbrev pub count : ℕ → List ℕ → ℕ
count h [] = 0
count h (x ∷ xs) = one h x + count h xs

-- 1 where the map has the handle, and 0 where it does not.
abbrev pub held : {V : Type 0} → ℕ → Map ℕ V → ℕ
held h m = weight_at (λ _. 1) (find h m)

module _ {V : Type 0} where
  pub find-erase :
      (j k : ℕ) (m : Map ℕ V)
      → IsSorted m
      → find j (erase k m) ≡ (if j =k k then none else find j m)
  unfolding find erase
  find-erase j k [] s = ground arith
  find-erase j k ((i, v) ∷ m) s = ground (
    arith,
    nat_key.cmp_eq k i,
    nat_key.cmp_eq j i,
    nat_key.cmp_eq j k,
    nat_refl k,
    find-erase j k m,
    find-Above k m,
  )

  pub held-most : (h : ℕ) (m : Map ℕ V) → held h m ≤ 1
  held-most h m = elim (Option-cases (find h m)) [
    | inl e ↦ rw e (omega arith)
    | inr (v, e) ↦ rw e (omega arith)
  ]

  pub held-none : (h : ℕ) (m : Map ℕ V) → held h m ≡ 0 → find h m ≡ none
  held-none h m e = elim (Option-cases (find h m)) [
    | inl e ↦ e
    | inr (v, f) ↦ absurd (omega (arith, e, ap (weight_at (λ _. 1)) f))
  ]

  pub held-insert :
      (h k : ℕ) (v : V) (m : Map ℕ V) → held k m ≡ 0 → held h (insert k v m) ≡ held h m + one h k
  held-insert h k v m e = ground (arith, find-insert h k v m, nat_key.cmp_eq h k, held-none k m e)

  pub held-erase :
      (h k : ℕ) (m : Map ℕ V) → IsSorted m → 0 < held k m → held h (erase k m) + one h k ≡ held h m
  held-erase h k m s e = ground (arith, find-erase h k m s, nat_key.cmp_eq h k, held-most h m)

pub one_self : (k : ℕ) → one k k ≡ 1
one_self k = ground (arith, nat_refl k)

pub count-append : (h : ℕ) (xs ys : List ℕ) → count h (xs ++ ys) ≡ count h xs + count h ys
count-append h [] ys = omega arith
count-append h (x ∷ xs) ys = omega (arith, count-append h xs ys)

pub pop_back-count :
    (h : ℕ) (xs front : List ℕ) (last : ℕ)
    → pop_back xs ≡ some (front, last)
    → count h xs ≡ count h front + one h last
unfolding pop_back
pop_back-count h [] front last e = cc
pop_back-count h (x ∷ []) front last e = ground arith
pop_back-count h (x ∷ y ∷ xs) front last e = elim (Option-cases (pop_back (y ∷ xs))) [
  | inl n ↦ ground arith
  | inr ((f, l), s) ↦ let more = pop_back-count h (y ∷ xs) f l s in ground arith
]

pub at_idle : (h : ℕ) (o : Option (List ℕ)) → weight_at (count h) o ≡ count h (idle o)
at_idle h none = refl
at_idle h (some xs) = refl

pub weight-idle :
    (h : ℕ) (key : Bytes) (xs : List ℕ) (m : Map Bytes (List ℕ))
    → IsSorted m
    → weight (count h) (insert key xs m) + count h (idle (find key m))
      ≡ weight (count h) m + count h xs
weight-idle h key xs m s =
    omega (arith, weight-upsert (count h) key (λ _. xs) m s, at_idle h (find key m))
