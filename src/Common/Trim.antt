-- ===== src/Common/Trim.antt =====
-- es3/common.cpp: `trim` against a description without its counters.
use extremes.Base.{
  ℕ, zero, suc, ◌≡◌, refl, ap, ◌∙◌, inl, inr, Bool, true, false, not, ◌&&◌, [], ◌∷◌, ◌++◌, map,
  Bytes, codes, arith, if◌then◌else◌, ◌==◌, replicate, Bool-cases, All,
}
use extremes.Common.{is_space, trim, trim_loop}

abbrev all_space : Bytes → Bool
all_space [] = true
all_space (c ∷ s) = is_space c && all_space s

-- Without the white space in front.
abbrev pub strip_front : Bytes → Bytes
strip_front [] = []
strip_front (c ∷ s) = elim (is_space c) [ true ↦ strip_front s | false ↦ c ∷ s ]

-- Without the white space at the end.
abbrev pub strip_back : Bytes → Bytes
strip_back [] = []
strip_back (c ∷ s) = elim (is_space c && all_space s) [ true ↦ [] | false ↦ c ∷ strip_back s ]

-- Each white space character as a blank.
abbrev pub blank : Bytes → Bytes
blank = map (λ c. if is_space c then b' ' else c)

replicate-suc : (n : ℕ) (s : Bytes) → replicate (suc n) b' ' ++ s ≡ replicate n b' ' ++ b' ' ∷ s
replicate-suc zero s = refl
replicate-suc (suc n) s = ap (◌∷◌ b' ') (replicate-suc n s)

span-blank :
    (n : ℕ) (s : Bytes)
    → (if not (n == 0) && true then replicate n b' ' else []) ++ s ≡ replicate n b' ' ++ s
span-blank zero s = refl
span-blank (suc n) s = let some_ : (suc n == 0) ≡ false = ground arith in rw some_ refl

abbrev kept : Bytes → ℕ → Bytes
kept s n = if all_space s then [] else replicate n b' ' ++ blank (strip_back s)

no_span : (n : ℕ) (s : Bytes) → (if not (n == 0) && false then replicate n b' ' else []) ++ s ≡ s
no_span zero s = refl
no_span (suc n) s = let some_ : (suc n == 0) ≡ false = ground arith in rw some_ refl

strip_back-all : (s : Bytes) → all_space s ≡ true → strip_back s ≡ []
strip_back-all [] h = refl
strip_back-all (c ∷ s) h = rw (strip_back, h) refl

kept-zero : (s : Bytes) → kept s 0 ≡ blank (strip_back s)
kept-zero s = elim (Bool-cases (all_space s)) [
  | inl all ↦ rw (all, strip_back-all s all) refl
  | inr some_ ↦ rw some_ refl
]

trim_loop-space :
    (c : ℕ) (s : Bytes) (hit : Bool) (n : ℕ)
    → is_space c ≡ true
    → trim_loop (c ∷ s) hit n ≡ trim_loop s hit (suc n)
unfolding trim_loop
trim_loop-space c s hit n e = rw (trim_loop, e) refl

trim_loop-other :
    (c : ℕ) (s : Bytes) (hit : Bool) (n : ℕ)
    → is_space c ≡ false
    → trim_loop (c ∷ s) hit n
      ≡ (if not (n == 0) && hit then replicate n b' ' else []) ++ c ∷ trim_loop s true 0
unfolding trim_loop
trim_loop-other c s hit n e = rw (trim_loop, e) refl

strip_back-other :
    (c : ℕ) (s : Bytes) → is_space c ≡ false → blank (strip_back (c ∷ s)) ≡ c ∷ blank (strip_back s)
strip_back-other c s e = rw (strip_back, e, e) refl

strip_back-space :
    (c : ℕ) (s : Bytes)
    → is_space c ≡ true
    → all_space s ≡ false
    → blank (strip_back (c ∷ s)) ≡ b' ' ∷ blank (strip_back s)
strip_back-space c s e f = rw (strip_back, e, f, e) refl

-- Behind a character that is kept, with `n` white space characters put off.
trim_loop-kept : (s : Bytes) (n : ℕ) → trim_loop s true n ≡ kept s n
unfolding trim_loop
trim_loop-kept [] n = refl
trim_loop-kept (c ∷ s) n = go (is_space c) refl (all_space s) refl (trim_loop-kept s)
  where
    go :
        (b : Bool)
        → is_space c ≡ b
        → (a : Bool) → all_space s ≡ a
        → ((m : ℕ) → trim_loop s true m ≡ kept s m)
        → trim_loop (c ∷ s) true n ≡ kept (c ∷ s) n
    go true e true f ih = trim_loop-space c s true n e ∙ ih (suc n) ∙ rw (f, e) refl
    go true e false f ih =
        trim_loop-space c s true n e
        ∙ ih (suc n)
        ∙ rw (f, e, strip_back-space c s e f) (replicate-suc n (blank (strip_back s)))
    go false e a f ih =
        trim_loop-other c s true n e
        ∙ rw (ih 0, kept-zero s, e, strip_back-other c s e)
            (span-blank n (c ∷ blank (strip_back s)))

trim_loop-strip : (s : Bytes) (n : ℕ) → trim_loop s false n ≡ blank (strip_back (strip_front s))
unfolding trim_loop
trim_loop-strip [] n = refl
trim_loop-strip (c ∷ s) n = go (is_space c) refl (trim_loop-strip s (suc n))
  where
    go :
        (b : Bool)
        → is_space c ≡ b
        → trim_loop s false (suc n) ≡ blank (strip_back (strip_front s))
        → trim_loop (c ∷ s) false n ≡ blank (strip_back (strip_front (c ∷ s)))
    go true e ih = trim_loop-space c s false n e ∙ rw (strip_front, e) ih
    go false e ih =
        trim_loop-other c s false n e
        ∙ rw (strip_front, e, trim_loop-kept s 0, kept-zero s, strip_back-other c s e)
            (no_span n (c ∷ blank (strip_back s)))

-- `trim` takes the white space off both ends, and writes every other white space character as a
-- blank.
pub trim-strip : (s : Bytes) → trim s ≡ blank (strip_back (strip_front s))
unfolding trim
trim-strip s = trim_loop-strip s 0

abbrev pub IsPlain : Bytes → Type 0
IsPlain = All (λ c. is_space c ≡ false)

trim_loop-plain : (v : Bytes) → IsPlain v → trim_loop (v ++ codes "\r\n") true 0 ≡ v
unfolding trim_loop is_space
trim_loop-plain [] h = refl
trim_loop-plain (c ∷ v) h =
    trim_loop-other c (v ++ codes "\r\n") true 0 h.0 ∙ ap (◌∷◌ c) (trim_loop-plain v h.1)

-- The value of a header, as it stands in the header's line.
pub trim-value : (v : Bytes) → IsPlain v → trim (b' ' ∷ v ++ codes "\r\n") ≡ v
unfolding trim trim_loop is_space
trim-value [] h = refl
trim-value (c ∷ v) h =
    trim_loop-other c (v ++ codes "\r\n") false 1 h.0 ∙ ap (◌∷◌ c) (trim_loop-plain v h.1)
