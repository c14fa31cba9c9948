-- ===== src/Glob.antt =====
-- es3/pattern_match.hpp: the shell patterns of the include and exclude options. The two iterators
-- of a range are the list between them.
pub mod Items
pub mod Decides
pub mod Fuel
pub mod Ranges
use extremes.Base.{
  ℕ, zero, suc, ◌+◌, ◌≡◌, Bool, true, false, not, ◌||◌, ◌&&◌, List, [], ◌∷◌, Option, none, some,
  Bytes, ◌==◌, ltb, leb, if◌then◌else◌, length,
}

-- The two `std::runtime_error` texts, the `std::out_of_range` of `bitset::set`, and the model's own
-- `out_of_fuel`.
pub data Failure : Type 0 where
  class_not_end escape_not_end out_of_range out_of_fuel : Failure

pub data Result {ℓ} (A : Type ℓ) : Type ℓ where
  ok : A → Result A
  fail : Failure → Result A

infixl 5 ◌>>=◌
abbrev pub ◌>>=◌ {ℓ κ} : {A : Type ℓ} {B : Type κ} → Result A → (A → Result B) → Result B
ok a >>= f = f a
fail e >>= f = fail e

-- `std::bitset<256>`, by its test.
abbrev pub Mask : Type 0
Mask = ℕ → Bool

-- `for (i = start; i != last; ++i) res.set(i)`: `last` itself stays out, and a range that runs
-- backwards meets index 256.
abbrev pub set_range : ℕ → ℕ → Mask → Mask
set_range start last mask = λ c. mask c || (leb start c && ltb c last)

abbrev pub set_one : ℕ → Mask → Mask
set_one c1 mask = λ c. mask c || c == c1

-- The loop of `make_char_class`.
unfoldable pub class_loop : Bytes → Mask → Result Mask
class_loop [] mask = ok mask
class_loop (c1 ∷ []) mask = ok (set_one c1 mask)
class_loop (c1 ∷ d ∷ []) mask = elim (d == b'-') [
  | true ↦ fail class_not_end
  | false ↦ class_loop (d ∷ []) (set_one c1 mask)
]
class_loop (c1 ∷ d ∷ last ∷ rest) mask = elim (d == b'-') [
  | true ↦ elim (leb c1 last) [
    | true ↦ class_loop rest (set_range c1 last mask)
    | false ↦ fail out_of_range
  ]
  | false ↦ class_loop (d ∷ last ∷ rest) (set_one c1 mask)
]

abbrev flip : Mask → Mask
flip mask = λ c. not (mask c)

unfoldable pub make_char_class : Bytes → Result Mask
unfolding class_loop
make_char_class [] = ok (λ c. false)
make_char_class (x ∷ body) =
    if x == b'^'
    then (class_loop body (λ c. false) >>= λ mask. ok (flip mask))
    else class_loop (x ∷ body) (λ c. false)

-- `std::find(next, ptn_end, ']')`: what stands before the bracket, and what after it.
unfoldable pub find_bracket : Bytes → Option (Bytes × Bytes)
find_bracket [] = none
find_bracket (x ∷ xs) =
    if x == b']'
    then some ([], xs)
    else elim (find_bracket xs) [ none ↦ none | some (body, rest) ↦ some (x ∷ body, rest) ]

-- A bracket in the first place belongs to the class.
unfoldable pub split_class : Bytes → Option (Bytes × Bytes)
unfolding find_bracket
split_class [] = none
split_class (x ∷ xs) =
    if x == b']'
    then elim (find_bracket xs) [ none ↦ none | some (body, rest) ↦ some (x ∷ body, rest) ]
    else find_bracket (x ∷ xs)

-- What one element of a pattern other than a star asks of a byte.
pub data Test : Type 0 where
  any_byte : Test
  literal : ℕ → Test
  class : Mask → Test

unfoldable pub accepts : Test → ℕ → Bool
accepts any_byte c = true
accepts (literal x) c = c == x
accepts (class mask) c = mask c

-- The branches for `[`, `\`, `?` and a plain character `ptn`: the test, and the rest of the pattern.
unfoldable pub read_test : ℕ → Bytes → Result (Test × Bytes)
unfolding split_class make_char_class
read_test ptn rest =
    if ptn == b'['
    then elim (split_class rest) [
      | none ↦ fail class_not_end
      | some (body, after) ↦ make_char_class body >>= λ mask. ok (class mask, after)
    ]
    else if ptn == 0x5c
    then elim rest [ [] ↦ fail escape_not_end | x ∷ after ↦ ok (literal x, after) ]
    else if ptn == b'?'
    then ok (any_byte, rest)
    else ok (literal ptn, rest)

-- The branch for `*`: the suffixes of the text, from the empty one up, until one matches.
unfoldable pub try_suffixes : (Bytes → Result Bool) → Bytes → Result Bool
try_suffixes attempt [] = attempt []
try_suffixes attempt (c ∷ s) =
    try_suffixes attempt s >>= λ found. if found then ok true else attempt (c ∷ s)

-- One element that is no star, against the text.
unfoldable pub match_one : ℕ → Bytes → Bytes → (Bytes → Bytes → Result Bool) → Result Bool
unfolding read_test accepts
match_one ptn rest [] onward = ok false
match_one ptn rest (c ∷ s) onward =
    read_test ptn rest >>= λ (t, after). if accepts t c then onward after s else ok false

-- `pattern_match_impl`.
unfoldable pub match_impl : ℕ → Bytes → Bytes → Result Bool
unfolding try_suffixes match_one
match_impl zero ptn s = fail out_of_fuel
match_impl (suc fuel) [] [] = ok true
match_impl (suc fuel) [] (c ∷ s) = ok false
match_impl (suc fuel) (x ∷ rest) s = elim (x == b'*') [
  | true ↦ try_suffixes (match_impl fuel rest) s
  | false ↦ match_one x rest s (match_impl fuel)
]

-- `pattern_match(ptn)(s)`. Every turn of the loop uses up a character of the pattern.
unfoldable pub pattern_match : Bytes → Bytes → Result Bool
unfolding match_impl
pattern_match ptn s = match_impl (length ptn + 1) ptn s
