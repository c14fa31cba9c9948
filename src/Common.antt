-- ===== src/Common.antt =====
-- es3/common.h and es3/common.cpp: strings and numbers in decimal, and the size of an open file.
pub mod Trim
pub mod Decimal
use extremes.Base.{
  ℕ, zero, suc, ◌+◌, ◌-◌, ◌*◌, ◌/◌, ◌%◌, ◌^◌, Bool, true, false, not, ◌&&◌, ◌||◌, List, [], ◌∷◌,
  ◌++◌, Option, none, some, map, Bytes, codes, ltb, leb, ◌==◌, if◌then◌else◌, get_or, replicate,
  length, bytes_cmp,
}
use Prim.Native.Nat.{Ordering}
use extremes.Errors.{Result, ok, throw, std_exception}

-- `std::string::empty`
abbrev pub is_empty : Bytes → Bool
is_empty [] = true
is_empty (c ∷ s) = false

-- The test of `trim`.
unfoldable pub is_space : ℕ → Bool
is_space c = c == b' ' || c == b'\n' || c == b'\r' || c == b'\t'

-- The loop of `trim`, by `hit_non_ws` and `ws_span`: what it appends to `res` from here on.
unfoldable pub trim_loop : Bytes → Bool → ℕ → Bytes
trim_loop [] hit span = []
trim_loop (c ∷ s) hit span = elim (is_space c) [
  | true ↦ trim_loop s hit (suc span)
  | false ↦ (if not (span == 0) && hit then replicate span b' ' else []) ++ c ∷ trim_loop s true 0
]

unfoldable pub trim : Bytes → Bytes
unfolding trim_loop
trim s = trim_loop s false 0

abbrev hex_digits : Bytes
hex_digits = codes "0123456789abcdef"

unfoldable pub tobinhex : Bytes → Bytes
tobinhex [] = []
tobinhex (c ∷ data_) = get_or hex_digits (c / 16) 0 ∷ get_or hex_digits (c % 16) 0 ∷ tobinhex data_

-- `::tolower` in the "C" locale.
abbrev pub tolower : ℕ → ℕ
tolower c = if leb b'A' c && leb c b'Z' then c + 32 else c

abbrev pub lower : Bytes → Bytes
lower = map tolower

-- The digits of a number; the fuel is the number itself, which every round divides by ten.
unfoldable pub digits : ℕ → ℕ → Bytes
digits zero n = (b'0' + n % 10) ∷ []
digits (suc fuel) n = elim (ltb n 10) [
  | true ↦ (b'0' + n) ∷ []
  | false ↦ digits fuel (n / 10) ++ (b'0' + n % 10) ∷ []
]

-- `sprintf("%lld")` for an `int64_t`, which is given by its 64 bits.
unfoldable pub int_to_string : ℕ → Bytes
unfolding digits
int_to_string n = if ltb n (2 ^ 63) then digits n n else b'-' ∷ digits (2 ^ 64 - n) (2 ^ 64 - n)

-- `append_int_to_string`
unfoldable pub append_int_to_string : ℕ → Bytes → Bytes
unfolding int_to_string
append_int_to_string n out = out ++ int_to_string n

unfoldable pub is_digit : ℕ → Bool
is_digit c = leb b'0' c && leb c b'9'

-- The digits that a text begins with, as a number behind `n`.
unfoldable pub scan_digits : Bytes → ℕ → ℕ
scan_digits [] n = n
scan_digits (c ∷ s) n = elim (is_digit c) [ true ↦ scan_digits s (n * 10 + (c - b'0')) | false ↦ n ]

-- A sign and digits.
unfoldable pub scan_signed : Bytes → ℕ
unfolding scan_digits
scan_signed [] = 0
scan_signed (c ∷ s) =
    if c == b'-'
    then (2 ^ 64 - scan_digits s 0 % 2 ^ 64) % 2 ^ 64
    else if c == b'+'
    then scan_digits s 0 % 2 ^ 64
    else scan_digits (c ∷ s) 0 % 2 ^ 64

-- `isspace` of the C library, which `atoll` skips.
unfoldable pub is_c_space : ℕ → Bool
unfolding is_space
is_c_space c = is_space c || c == 11 || c == 12

-- `atoll` of the C library, by the 64 bits of its result; where the number does not fit, which C
-- leaves undefined, the model wraps.
unfoldable pub atoll : Bytes → ℕ
unfolding scan_signed
atoll [] = 0
atoll (c ∷ s) = elim (is_c_space c) [ true ↦ atoll s | false ↦ scan_signed (c ∷ s) ]

-- A map with the order `ci_string_less`, which tells keys apart by `strcasecmp`.
abbrev pub HeaderMap : Type 0
HeaderMap = List (Bytes × Bytes)

unfoldable pub strcasecmp : Bytes → Bytes → Ordering
strcasecmp a b = bytes_cmp (lower a) (lower b)

-- `ci_string_less`
unfoldable pub ci_string_less : Bytes → Bytes → Bool
unfolding strcasecmp
ci_string_less a b = elim (strcasecmp a b) [ Ordering.lt ↦ true | _ ↦ false ]

-- `map[key] = value`: a key that is there stays as it was written first.
unfoldable pub assign_header : Bytes → Bytes → HeaderMap → HeaderMap
unfolding strcasecmp
assign_header k v [] = (k, v) ∷ []
assign_header k v (e ∷ m) = elim (strcasecmp k e.0) [
  | Ordering.lt ↦ (k, v) ∷ e ∷ m
  | Ordering.eq ↦ (e.0, v) ∷ m
  | Ordering.gt ↦ e ∷ assign_header k v m
]

-- `try_get` with the empty string as default.
unfoldable pub try_get : HeaderMap → Bytes → Bytes
unfolding strcasecmp
try_get [] k = []
try_get (e ∷ m) k = elim (strcasecmp k e.0) [ Ordering.eq ↦ e.1 | _ ↦ try_get m k ]

-- `safe_cast` between unsigned types, to one of `bits` bits.
unfoldable pub safe_cast : ℕ → ℕ → Result ℕ
safe_cast bits f = if f % 2 ^ bits == f then ok (f % 2 ^ bits) else throw std_exception

-- `logger::is_log_on` for the level that `set_verbosity` has stored.
unfoldable pub is_log_on : ℕ → ℕ → Bool
is_log_on stored lvl = leb lvl stored

-- An open file: its number, the bytes it holds and the position.
pub record OpenFile : Type 0 where
  pub fileno : ℕ
  pub contents : Bytes
  pub pos : ℕ

-- `lseek64(fileno, offset, SEEK_SET)` on a regular file, for an offset that may be negative, and
-- `lseek64(fileno, 0, SEEK_END)`; the result is the new position, or `none` for an error.
unfoldable pub seek_set : Bool → ℕ → OpenFile → OpenFile × Option ℕ
seek_set negative offset fl =
    if negative && not (offset == 0) then (fl, none) else (record fl { pos = offset }, some offset)

unfoldable pub seek_end : OpenFile → OpenFile × ℕ
seek_end fl = let end_ = length fl.contents in (record fl { pos = end_ }, end_)

-- `handle_t::size`
unfoldable pub size : OpenFile → OpenFile × Result ℕ
unfolding seek_set seek_end
size fl =
    if fl.fileno == 0
    then (fl, ok 0)
    else (let (start, pos) = seek_set false 0 fl in
        elim pos [
          | none ↦ (start, throw std_exception)
          | some pos ↦
              let (ended, res) = seek_end start in
              let (back, moved) = seek_set true pos ended in
              (back, elim moved [ none ↦ throw std_exception | some p ↦ ok res ])
        ])
