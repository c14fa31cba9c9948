-- ===== src/Glob/Items.antt =====
-- Patterns as lists of elements, and what it means for a text to match one, with no search in it.
use extremes.Base.{ℕ, zero, suc, ◌+◌, ◌≡◌, true, List, [], ◌∷◌, Bytes, ◌==◌, length, false}
use extremes.Glob.{Result, ok, fail, out_of_fuel, ◌>>=◌, Test, accepts, read_test}

pub data Item : Type 0 where
  star : Item
  one : Test → Item

pub data Matches : List Item → Bytes → Type 0 where
  done : Matches [] []
  eat :
      {t : Test} {c : ℕ} {p : List Item} {s : Bytes}
      → accepts t c ≡ true
      → Matches p s
      → Matches (one t ∷ p) (c ∷ s)
  stop : {p : List Item} {s : Bytes} → Matches p s → Matches (star ∷ p) s
  more : {c : ℕ} {p : List Item} {s : Bytes} → Matches (star ∷ p) s → Matches (star ∷ p) (c ∷ s)

-- The elements of a pattern, read with no text at hand.
unfoldable pub items_within : ℕ → Bytes → Result (List Item)
items_within zero ptn = fail out_of_fuel
items_within (suc fuel) [] = ok []
items_within (suc fuel) (x ∷ rest) = elim (x == b'*') [
  | true ↦ items_within fuel rest >>= λ p. ok (star ∷ p)
  | false ↦ read_test x rest >>= λ (t, after). items_within fuel after >>= λ p. ok (one t ∷ p)
]

unfoldable pub items : Bytes → Result (List Item)
unfolding items_within
items ptn = items_within (length ptn + 1) ptn
