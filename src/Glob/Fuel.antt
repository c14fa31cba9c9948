-- ===== src/Glob/Fuel.antt =====
-- The fuel of the search is never used up, also on patterns that are no good.
use extremes.Base.{
  ℕ, zero, suc, ◌+◌, ◌≤◌, ◌<◌, inl, inr, Bool, true, false, [], ◌∷◌, Bytes, Option, some, none,
  arith, ◌==◌, if◌then◌else◌, Bool-cases, length,
}
use extremes.Glob.{
  Failure, Result, ok, fail, class_not_end, escape_not_end, ◌>>=◌, Mask, Test, class, literal,
  accepts, class_loop, set_one, set_range, make_char_class, find_bracket, split_class, read_test,
  try_suffixes, match_one, match_impl, pattern_match,
}

abbrev pub IsFueled {ℓ} : {A : Type ℓ} → Result A → Type 0
IsFueled (ok a) = Unit
IsFueled (fail Failure.out_of_fuel) = ⊥
IsFueled (fail _) = Unit

class_loop-IsFueled : (s : Bytes) (m : Mask) → IsFueled (class_loop s m)
unfolding class_loop
class_loop-IsFueled [] m = tt
class_loop-IsFueled (c ∷ []) m = tt
class_loop-IsFueled (c ∷ d ∷ []) m = ground arith
class_loop-IsFueled (c ∷ d ∷ l ∷ rest) m = ground (
  arith,
  class_loop-IsFueled rest (set_range c l m),
  class_loop-IsFueled (d ∷ l ∷ rest) (set_one c m),
)

make_char_class-IsFueled : (s : Bytes) → IsFueled (make_char_class s)
unfolding make_char_class
make_char_class-IsFueled [] = tt
make_char_class-IsFueled (x ∷ s) =
    ground (arith, class_loop-IsFueled s (λ c. false), class_loop-IsFueled (x ∷ s) (λ c. false))

-- What is left of the pattern is no longer than what there was.
abbrev Within : ℕ → Option (Bytes × Bytes) → Type 0
Within n none = Unit
Within n (some (body, rest)) = length rest ≤ n

find_bracket-Within : (s : Bytes) → Within (length s) (find_bracket s)
unfolding find_bracket
find_bracket-Within [] = tt
find_bracket-Within (x ∷ s) = ground (arith, find_bracket-Within s)

split_class-Within : (s : Bytes) → Within (length s) (split_class s)
unfolding split_class
split_class-Within [] = tt
split_class-Within (x ∷ s) = ground (arith, find_bracket-Within s, find_bracket-Within (x ∷ s))

abbrev ReadsWithin : ℕ → Result (Test × Bytes) → Type 0
ReadsWithin n (ok (t, after)) = length after ≤ n
ReadsWithin n (fail Failure.out_of_fuel) = ⊥
ReadsWithin n (fail _) = Unit

class-ReadsWithin :
    (n : ℕ) (after : Bytes) (r : Result Mask)
    → IsFueled r
    → length after ≤ n
    → ReadsWithin n (r >>= λ mask. ok (class mask, after))
class-ReadsWithin n after (ok m) h k = k
class-ReadsWithin n after (fail Failure.out_of_fuel) h k = h
class-ReadsWithin n after (fail _) h k = tt

read_class : Option (Bytes × Bytes) → Result (Test × Bytes)
read_class none = fail class_not_end
read_class (some (body, after)) = make_char_class body >>= λ mask. ok (class mask, after)

read_class-ReadsWithin :
    (n : ℕ) (o : Option (Bytes × Bytes)) → Within n o → ReadsWithin n (read_class o)
unfolding read_class
read_class-ReadsWithin n none h = tt
read_class-ReadsWithin n (some (body, after)) h =
    class-ReadsWithin n after (make_char_class body) (make_char_class-IsFueled body) h

read_escape-ReadsWithin :
    (rest : Bytes)
    → ReadsWithin
        (length rest)
        (elim rest [ [] ↦ fail escape_not_end | x ∷ after ↦ ok (literal x, after) ])
read_escape-ReadsWithin [] = tt
read_escape-ReadsWithin (x ∷ after) = omega arith

read_test-ReadsWithin : (x : ℕ) (rest : Bytes) → ReadsWithin (length rest) (read_test x rest)
unfolding read_test read_class
read_test-ReadsWithin x rest = elim (Bool-cases (x == b'[')) [
  | inl e ↦
      rw (e, read_test)
        (read_class-ReadsWithin (length rest) (split_class rest) (split_class-Within rest))
  | inr e ↦ elim (Bool-cases (x == 0x5c)) [
    | inl e' ↦ rw (e, e', read_test) (read_escape-ReadsWithin rest)
    | inr e' ↦ ground arith
  ]
]

module _ (attempt : Bytes → Result Bool) (h : (s : Bytes) → IsFueled (attempt s)) where
  or_attempt-IsFueled :
      (r : Result Bool) (s : Bytes)
      → IsFueled r
      → IsFueled (r >>= λ found. if found then ok true else attempt s)
  or_attempt-IsFueled (ok true) s k = tt
  or_attempt-IsFueled (ok false) s k = h s
  or_attempt-IsFueled (fail Failure.out_of_fuel) s k = k
  or_attempt-IsFueled (fail _) s k = tt

  try_suffixes-IsFueled : (s : Bytes) → IsFueled (try_suffixes attempt s)
  unfolding try_suffixes
  try_suffixes-IsFueled [] = h []
  try_suffixes-IsFueled (c ∷ s) =
      or_attempt-IsFueled (try_suffixes attempt s) (c ∷ s) (try_suffixes-IsFueled s)

module _ (n : ℕ) (onward : Bytes → Bytes → Result Bool) where
  onward-IsFueled :
      ((after s : Bytes) → length after ≤ n → IsFueled (onward after s))
      → (c : ℕ) (s : Bytes) (r : Result (Test × Bytes)) → ReadsWithin n r
      → IsFueled (r >>= λ (t, after). if accepts t c then onward after s else ok false)
  onward-IsFueled h c s (ok (t, after)) k = ground (arith, h after s k)
  onward-IsFueled h c s (fail Failure.out_of_fuel) k = k
  onward-IsFueled h c s (fail _) k = tt

match_one-IsFueled :
    (x : ℕ) (rest : Bytes) (onward : Bytes → Bytes → Result Bool)
    → ((after s : Bytes) → length after ≤ length rest → IsFueled (onward after s))
    → (u : Bytes) → IsFueled (match_one x rest u onward)
unfolding match_one
match_one-IsFueled x rest onward h [] = tt
match_one-IsFueled x rest onward h (c ∷ u) =
    onward-IsFueled (length rest) onward h c u (read_test x rest) (read_test-ReadsWithin x rest)

match_impl-IsFueled : (f : ℕ) (ptn s : Bytes) → length ptn < f → IsFueled (match_impl f ptn s)
unfolding match_impl
match_impl-IsFueled zero ptn s h = absurd (omega arith)
match_impl-IsFueled (suc f) [] [] h = tt
match_impl-IsFueled (suc f) [] (c ∷ s) h = tt
match_impl-IsFueled (suc f) (x ∷ rest) s h = elim (Bool-cases (x == b'*')) [
  | inl is_star ↦
      rw (is_star, match_impl)
        (try_suffixes-IsFueled (match_impl f rest) (λ u. match_impl-IsFueled f rest u (omega arith))
          s)
  | inr other ↦
      rw (other, match_impl)
        (match_one-IsFueled x rest (match_impl f)
          (λ after v k. match_impl-IsFueled f after v (omega arith)) s)
]

-- On every pattern and every text the search ends: with an answer, or with one of the errors that
-- the source throws.
pub pattern_match-IsFueled : (ptn s : Bytes) → IsFueled (pattern_match ptn s)
unfolding pattern_match
pattern_match-IsFueled ptn s = match_impl-IsFueled (length ptn + 1) ptn s (omega arith)
