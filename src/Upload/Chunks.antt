-- ===== src/Upload/Chunks.antt =====
-- A file's contents cut into segments: what the pumps of es3/uploader.cpp are to read.
use extremes.Base.{
  ℕ, zero, suc, ◌+◌, ◌-◌, ◌*◌, ◌≤◌, ◌≡◌, refl, sym, ap, ◌∙◌, List, [], ◌∷◌, ◌++◌, arith, min,
  Bool-cases, leb, inl, inr, length, take, drop, take-append-drop, length-drop,
}
use mathlib.Core.List.{append_assoc}

module _ {ℓ} {A : Type ℓ} where
  pub take-append :
      (n : ℕ) (xs ys : List A) → take n (xs ++ ys) ≡ take n xs ++ take (n - length xs) ys
  take-append zero xs ys = let none : 0 - length xs ≡ 0 = omega arith in rw none refl
  take-append (suc n) [] ys = let same : suc n - 0 ≡ suc n = omega arith in rw same refl
  take-append (suc n) (x ∷ xs) ys =
      let same : suc n - suc (length xs) ≡ n - length xs = omega arith in
      rw same (ap (◌∷◌ x) (take-append n xs ys))

  pub drop-append :
      (n : ℕ) (xs ys : List A) → drop n (xs ++ ys) ≡ drop n xs ++ drop (n - length xs) ys
  drop-append zero xs ys = let none : 0 - length xs ≡ 0 = omega arith in rw none refl
  drop-append (suc n) [] ys = let same : suc n - 0 ≡ suc n = omega arith in rw same refl
  drop-append (suc n) (x ∷ xs) ys =
      let same : suc n - suc (length xs) ≡ n - length xs = omega arith in
      rw same (drop-append n xs ys)

  pub take_all : (n : ℕ) (xs : List A) → length xs ≤ n → take n xs ≡ xs
  take_all zero [] h = refl
  take_all zero (x ∷ xs) h = ground (arith, h)
  take_all (suc n) [] h = refl
  take_all (suc n) (x ∷ xs) h = ap (◌∷◌ x) (take_all n xs (omega (arith, h)))

  pub drop_all : (n : ℕ) (xs : List A) → length xs ≤ n → drop n xs ≡ []
  drop_all zero [] h = refl
  drop_all zero (x ∷ xs) h = ground (arith, h)
  drop_all (suc n) [] h = refl
  drop_all (suc n) (x ∷ xs) h = drop_all n xs (omega (arith, h))

  pub drop-drop : (m n : ℕ) (xs : List A) → drop m (drop n xs) ≡ drop (n + m) xs
  drop-drop m zero xs = ap (λ k. drop k xs) (omega arith)
  drop-drop zero (suc n) [] = sym (drop_all (suc n + 0) [] (omega arith))
  drop-drop (suc m) (suc n) [] = sym (drop_all (suc n + suc m) [] (omega arith))
  drop-drop m (suc n) (x ∷ xs) =
      let more : suc (n + m) ≡ suc n + m = omega arith in
      drop-drop m n xs ∙ ap (λ k. drop k (x ∷ xs)) more

  pub take-min : (n : ℕ) (xs : List A) → take (min n (length xs)) xs ≡ take n xs
  take-min n xs = elim (Bool-cases (leb n (length xs))) [
    | inl less ↦ ap (λ k. take k xs) (ground arith)
    | inr more ↦ take_all (min n (length xs)) xs (ground arith) ∙ sym (take_all n xs (ground arith))
  ]

  pub drop-min : (n : ℕ) (xs : List A) → drop (min n (length xs)) xs ≡ drop n xs
  drop-min n xs = elim (Bool-cases (leb n (length xs))) [
    | inl less ↦ ap (λ k. drop k xs) (ground arith)
    | inr more ↦ drop_all (min n (length xs)) xs (ground arith) ∙ sym (drop_all n xs (ground arith))
  ]

  -- All bytes of the pieces, one after the other.
  abbrev pub flat : List (List A) → List A
  flat [] = []
  flat (xs ∷ xss) = xs ++ flat xss

  pub flat-append : (xss yss : List (List A)) → flat (xss ++ yss) ≡ flat xss ++ flat yss
  flat-append [] yss = refl
  flat-append (xs ∷ xss) yss =
      ap (◌++◌ xs) (flat-append xss yss) ∙ sym (append_assoc xs (flat xss) (flat yss))

  -- The first `n` segments of size `k`; the last ones may be shorter.
  abbrev pub chunks : ℕ → ℕ → List A → List (List A)
  chunks k zero xs = []
  chunks k (suc n) xs = take k xs ∷ chunks k n (drop k xs)

  pub chunks-append :
      (k m n : ℕ) (xs : List A)
      → chunks k m xs ++ chunks k n (drop (k * m) xs) ≡ chunks k (m + n) xs
  chunks-append k zero n xs =
      let none : k * 0 ≡ 0 = omega arith in
      let same : 0 + n ≡ n = omega arith in rw (none, same) refl
  chunks-append k (suc m) n xs =
      let more : k * suc m ≡ k + k * m = omega arith in
      let same = ap (λ i. drop i xs) more ∙ sym (drop-drop (k * m) k xs) in
      let size : suc m + n ≡ suc (m + n) = omega arith in
      rw (same, size) (ap (◌∷◌ (take k xs)) (chunks-append k m n (drop k xs)))

  -- Enough segments hold everything.
  pub flat-chunks : (k n : ℕ) (xs : List A) → length xs ≤ k * n → flat (chunks k n xs) ≡ xs
  flat-chunks k zero [] h = refl
  flat-chunks k zero (x ∷ xs) h = ground (arith, h)
  flat-chunks k (suc n) xs h =
      ap (◌++◌ (take k xs)) (flat-chunks k n (drop k xs) (omega (arith, h, length-drop k xs)))
      ∙ take-append-drop k xs
