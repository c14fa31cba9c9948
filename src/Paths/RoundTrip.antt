-- ===== src/Paths/RoundTrip.antt =====
-- Paths of es3/connection.h printed and parsed again.
use extremes.Base.{ℕ, ◌≡◌, refl, Bool, false, ◌||◌, [], ◌∷◌, ◌++◌, some, Bytes, ◌==◌, arith}
use extremes.Errors.{ok}
use extremes.Paths.{print_path, split_slash, has_double_slash, parse_path}

abbrev pub has_slash : Bytes → Bool
has_slash [] = false
has_slash (c ∷ s) = c == b'/' || has_slash s

split_slash-append :
    (bucket rest : Bytes)
    → has_slash bucket ≡ false
    → split_slash (bucket ++ b'/' ∷ rest) ≡ (bucket, some (b'/' ∷ rest))
unfolding split_slash
split_slash-append [] rest h = refl
split_slash-append (c ∷ bucket) rest h =
    let plain : (c == b'/') ≡ false = ground arith in
    let more = split_slash-append bucket rest (ground arith) in rw (plain, more) refl

-- The URL of a path with a bucket name that is not empty and has no slash, and with a path that begins
-- with a slash and has no two in a row, is parsed to that bucket and path again, with an empty zone.
pub parse_path-print_path :
    (c : ℕ) (bucket rest : Bytes)
    → has_slash (c ∷ bucket) ≡ false
    → has_double_slash (b'/' ∷ rest) ≡ false
    → parse_path (print_path (record { zone = []; bucket = c ∷ bucket; path = b'/' ∷ rest }))
      ≡ ok (record { zone = []; bucket = c ∷ bucket; path = b'/' ∷ rest })
unfolding parse_path
parse_path-print_path c bucket rest plain single =
    rw (split_slash-append (c ∷ bucket) rest plain, single) refl
