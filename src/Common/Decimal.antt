-- ===== src/Common/Decimal.antt =====
-- es3/common.cpp: numbers printed in decimal are read back.
use extremes.Base.{
  ℕ, zero, suc, ◌+◌, ◌-◌, ◌*◌, ◌/◌, ◌%◌, ◌^◌, ◌≤◌, ◌<◌, ◌≡◌, ◌≢◌, ◌==◌, refl, ◌∙◌, inl, inr, true,
  false, [], ◌∷◌, ◌++◌, Bytes, arith, ltb, All, Bool-cases,
}
use extremes.Common.{
  is_empty, is_digit, is_space, is_c_space, digits, int_to_string, scan_digits, scan_signed, atoll,
}
use extremes.Common.Trim.{IsPlain}

abbrev AreDigits : Bytes → Type 0
AreDigits = All (λ c. is_digit c ≡ true)

digit-is : (n : ℕ) → n < 10 → is_digit (b'0' + n) ≡ true
unfolding is_digit
digit-is n h = ground arith

digits-append : (xs : Bytes) (d : ℕ) → AreDigits xs → is_digit d ≡ true → AreDigits (xs ++ d ∷ [])
digits-append [] d h e = (e, tt)
digits-append (x ∷ xs) d h e = (h.0, digits-append xs d h.1 e)

digits-AreDigits : (fuel n : ℕ) → AreDigits (digits fuel n)
unfolding digits
digits-AreDigits zero n = (digit-is (n % 10) (omega arith), tt)
digits-AreDigits (suc fuel) n = elim (Bool-cases (ltb n 10)) [
  | inl one ↦ rw (digits, one) (digit-is n (ground arith), tt)
  | inr more ↦
      rw (digits, more)
        (digits-append (digits fuel (n / 10)) (b'0' + n % 10) (digits-AreDigits fuel (n / 10))
          (digit-is (n % 10) (omega arith)))
]

scan_digits-append :
    (xs : Bytes) (d a : ℕ)
    → AreDigits xs
    → is_digit d ≡ true
    → scan_digits (xs ++ d ∷ []) a ≡ scan_digits xs a * 10 + (d - b'0')
unfolding scan_digits
scan_digits-append [] d a h e = rw (scan_digits, e) refl
scan_digits-append (x ∷ xs) d a h e =
    let first = h.0 in rw (scan_digits, first) (scan_digits-append xs d (a * 10 + (x - b'0')) h.1 e)

scan_digits-one : (n : ℕ) → n < 10 → scan_digits ((b'0' + n) ∷ []) 0 ≡ n
unfolding scan_digits
scan_digits-one n h = rw (scan_digits, digit-is n h) (omega arith)

scan-digits : (fuel n : ℕ) → n ≤ fuel → scan_digits (digits fuel n) 0 ≡ n
unfolding digits scan_digits
scan-digits zero n h = scan_digits-one (n % 10) (omega arith) ∙ omega arith
scan-digits (suc fuel) n h = elim (Bool-cases (ltb n 10)) [
  | inl one ↦ rw (digits, one) (scan_digits-one n (ground arith))
  | inr more ↦
      let rest = scan-digits fuel (n / 10) (omega arith) in
      rw (digits, more)
        (scan_digits-append (digits fuel (n / 10)) (b'0' + n % 10) 0
            (digits-AreDigits fuel (n / 10)) (digit-is (n % 10) (omega arith))
          ∙ omega (arith, rest))
]

digit-plain : (c : ℕ) → is_digit c ≡ true → is_space c ≡ false
unfolding is_digit is_space
digit-plain c h = ground arith

IsPlain-AreDigits : (s : Bytes) → AreDigits s → IsPlain s
IsPlain-AreDigits [] h = tt
IsPlain-AreDigits (c ∷ s) h = (digit-plain c h.0, IsPlain-AreDigits s h.1)

minus-plain : is_space b'-' ≡ false
unfolding is_space
minus-plain = refl

-- What is printed holds no white space.
pub int_to_string-IsPlain : (n : ℕ) → IsPlain (int_to_string n)
unfolding int_to_string
int_to_string-IsPlain n = elim (Bool-cases (ltb n (2 ^ 63))) [
  | inl plus ↦ rw (int_to_string, plus) (IsPlain-AreDigits (digits n n) (digits-AreDigits n n))
  | inr minus ↦
      rw (int_to_string, minus)
        (
          minus-plain,
          IsPlain-AreDigits (digits (2 ^ 64 - n) (2 ^ 64 - n))
              (digits-AreDigits (2 ^ 64 - n) (2 ^ 64 - n)),
        )
]

append-filled : (xs : Bytes) (d : ℕ) → xs ++ d ∷ [] ≢ []
append-filled [] d e = cc
append-filled (x ∷ xs) d e = cc

digits-filled : (fuel n : ℕ) → digits fuel n ≢ []
unfolding digits
digits-filled zero n e = cc
digits-filled (suc fuel) n e = elim (Bool-cases (ltb n 10)) [
  | inl one ↦ ground arith
  | inr more ↦ let filled = append-filled (digits fuel (n / 10)) (b'0' + n % 10) in ground arith
]

digit-first :
    (c : ℕ)
    → is_digit c ≡ true
    → (is_c_space c ≡ false) × ((c == b'-') ≡ false) × ((c == b'+') ≡ false)
unfolding is_digit is_c_space is_space
digit-first c h = (ground arith, ground arith, ground arith)

is_empty-filled : (s : Bytes) → s ≢ [] → is_empty s ≡ false
is_empty-filled [] h = absurd (h refl)
is_empty-filled (c ∷ s) h = refl

-- What is printed is not empty.
pub int_to_string-filled : (n : ℕ) → is_empty (int_to_string n) ≡ false
unfolding int_to_string
int_to_string-filled n = elim (Bool-cases (ltb n (2 ^ 63))) [
  | inl plus ↦ rw (int_to_string, plus) (is_empty-filled (digits n n) (digits-filled n n))
  | inr minus ↦ rw (int_to_string, minus) refl
]

atoll-digits : (s : Bytes) → AreDigits s → s ≢ [] → atoll s ≡ scan_digits s 0 % 2 ^ 64
unfolding atoll scan_signed
atoll-digits [] h e = absurd (e refl)
atoll-digits (c ∷ s) h e =
    let (space, minus, plus) = digit-first c h.0 in rw (atoll, space, minus, plus) refl

atoll-minus :
    (s : Bytes) → AreDigits s → atoll (b'-' ∷ s) ≡ (2 ^ 64 - scan_digits s 0 % 2 ^ 64) % 2 ^ 64
unfolding atoll scan_signed is_c_space is_space
atoll-minus s h = refl

-- `atoll` reads back what `int_to_string` prints, for every 64-bit number.
pub atoll-int_to_string : (n : ℕ) → n < 2 ^ 64 → atoll (int_to_string n) ≡ n
unfolding int_to_string
atoll-int_to_string n h = elim (Bool-cases (ltb n (2 ^ 63))) [
  | inl plus ↦
      let read = scan-digits n n (omega arith) in
      rw (int_to_string, plus)
        (atoll-digits (digits n n) (digits-AreDigits n n) (digits-filled n n)
          ∙ rw read (omega arith))
  | inr minus ↦
      let k = 2 ^ 64 - n in
      let read = scan-digits k k (omega arith) in
      rw (int_to_string, minus)
        (atoll-minus (digits k k) (digits-AreDigits k k) ∙ rw read (ground arith))
]
