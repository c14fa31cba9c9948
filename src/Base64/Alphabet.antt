-- ===== src/Base64/Alphabet.antt =====
-- The tables of es3/base64.cpp: `encodeLookup`, `base64_chars.find` and `is_base64`.
use extremes.Base.{
  ℕ, zero, suc, ◌+◌, ◌<◌, ◌≡◌, refl, Bool, true, ◌&&◌, ◌||◌, not, [], ◌∷◌, arith, Bytes, codes,
  get_or, ◌==◌, leb, if◌then◌else◌,
}

abbrev pub base64_chars : Bytes
base64_chars = codes "ABCDEFGHIJKLMNOPQRSTUVWXYZabcdefghijklmnopqrstuvwxyz0123456789+/"

-- `encodeLookup[i]`, for an index below 64; the table ends in the zero byte of its literal.
unfoldable pub lookup_char : ℕ → ℕ
lookup_char i = get_or base64_chars i 0

index_from : Bytes → ℕ → ℕ → ℕ
index_from [] i c = 255
index_from (x ∷ xs) i c = if c == x then i else index_from xs (i + 1) c

-- `base64_chars.find(c)` stored in an `unsigned char`: `npos` becomes 255.
pub position : ℕ → ℕ
unfolding index_from
position c = index_from base64_chars 0 c

-- `isalnum` of the C locale, `+` and `/`.
pub is_base64 : ℕ → Bool
is_base64 c =
    (leb b'0' c && leb c b'9' || leb b'A' c && leb c b'Z' || leb b'a' c && leb c b'z')
    || c == b'+'
    || c == b'/'

-- A test that holds of every index below a bound.
every_index : (ℕ → Bool) → ℕ → Bool
every_index test zero = true
every_index test (suc i) = every_index test i && test i

every_index_lem :
    (test : ℕ → Bool) (i bound : ℕ) → i < bound → every_index test bound ≡ true → test i ≡ true
unfolding every_index
every_index_lem test i zero lt all = absurd (omega (arith, lt))
every_index_lem test i (suc bound) lt all = ground (arith, every_index_lem test i bound)

in_table : ℕ → Bool
in_table i = let c = lookup_char i in position c == i && is_base64 c && not (c == b'=')

table_holds : every_index in_table 64 ≡ true
unfolding every_index in_table lookup_char position is_base64
table_holds = refl

-- Every character of the table is found again at its place, and the decoder's loop accepts it.
pub lookup_char_lem :
    (i : ℕ)
    → i < 64
    → (position (lookup_char i) ≡ i)
      × (is_base64 (lookup_char i) ≡ true)
      × (not (lookup_char i == b'=') ≡ true)
unfolding in_table
lookup_char_lem i h = ground (arith, every_index_lem in_table i 64 h table_holds)
