-- ===== src/Segments.antt =====
-- The number of segments of a file, as es3/uploader.cpp and es3/downloader.cpp compute it.
use extremes.Base.{
  ℕ, zero, suc, ◌+◌, ◌*◌, ◌/◌, ◌%◌, ◌≤◌, ◌<◌, ◌≡◌, ◌⊎◌, inl, inr, subst, List, [], ◌∷◌, All,
  Bool-cases, arith, ◌==◌, if◌then◌else◌,
}
use native.Mathlib.Nat.{mul-le-mul_left, div-add-mod, mod-lt, zero-div, zero-mod}

-- `size/segment_size + ((size%segment_size)==0 ? 0:1)`
unfoldable pub segment_count : ℕ → ℕ → ℕ
segment_count size segment_size = size / segment_size + (if size % segment_size == 0 then 0 else 1)

-- The number of segments, 1 for an empty file.
abbrev pub parts : ℕ → ℕ → ℕ
parts size segment_size =
    if segment_count size segment_size == 0 then 1 else segment_count size segment_size

-- The segment numbers from `i` up, `n` of them.
abbrev pub range : ℕ → ℕ → List ℕ
range i zero = []
range i (suc n) = i ∷ range (suc i) n

-- A segment starts within the contents, unless they are empty.
abbrev pub StartsInside : ℕ → ℕ → ℕ → Type 0
StartsInside k size i = (k * i < size) ⊎ (size ≡ 0)

pub parts-pos : (size segment_size : ℕ) → 0 < parts size segment_size
parts-pos size segment_size = ground arith

pub parts-StartsInside : (k size i : ℕ) → 0 < k → i < parts size k → StartsInside k size i
unfolding segment_count
parts-StartsInside k size i h lt =
    let whole = div-add-mod size k in
    elim (Bool-cases (size % k == 0)) [
      | inl even ↦ elim (Bool-cases (size / k == 0)) [
        | inl none ↦
            let zero_times : size / k ≡ 0 = ground arith in
            let still = subst (λ q. k * q + size % k ≡ size) zero_times whole in
            inr (ground (arith, still))
        | inr some ↦
            let low = mul-le-mul_left {m = suc i} {n = size / k} k (ground arith) in
            inl (ground (arith, low, whole))
      ]
      | inr odd ↦
          let low = mul-le-mul_left {m = i} {n = size / k} k (ground arith) in
          inl (ground (arith, low, whole))
    ]

pub parts-enough : (k size : ℕ) → 0 < k → size ≤ k * parts size k
unfolding segment_count
parts-enough k size h =
    let whole = div-add-mod size k in
    elim (Bool-cases (size % k == 0)) [
      | inl even ↦ elim (Bool-cases (size / k == 0)) [
        | inl none ↦
            let zero_times : size / k ≡ 0 = ground arith in
            let still = subst (λ q. k * q + size % k ≡ size) zero_times whole in
            ground (arith, still)
        | inr some ↦
            let count : parts size k ≡ size / k = ground arith in rw count (ground (arith, whole))
      ]
      | inr odd ↦
          let count : parts size k ≡ suc (size / k) = ground arith in
          rw count (ground (arith, whole, mod-lt size h))
    ]

pub range-All : (P : ℕ → Type 0) (i n : ℕ) → ((j : ℕ) → j < i + n → P j) → All P (range i n)
range-All P i zero h = tt
range-All P i (suc n) h =
    (h i (omega arith), range-All P (suc i) n (λ j lt. h j (omega (arith, lt))))

-- No segment starts behind the end.
pub parts-within : (k size i : ℕ) → 0 < k → i < parts size k → k * i ≤ size
unfolding segment_count
parts-within k size i h lt = elim (parts-StartsInside k size i h lt) [
  | inl inside ↦ omega (arith, inside)
  | inr none ↦
      let first : i ≡ 0 =
        ground (arith, subst (λ n. i < parts n k) none lt, zero-div k, zero-mod k) in
      rw first (omega arith)
]

-- A file that is not empty has a segment, so that the number of its parts is the one computed.
pub parts-segment_count : (k size : ℕ) → 0 < size → parts size k ≡ segment_count size k
unfolding segment_count
parts-segment_count k size h =
    let whole = div-add-mod size k in
    elim (Bool-cases (size % k == 0)) [
      | inl even ↦ elim (Bool-cases (size / k == 0)) [
        | inl none ↦
            let zero_times : size / k ≡ 0 = ground arith in
            let still = subst (λ q. k * q + size % k ≡ size) zero_times whole in
            ground (arith, still, h)
        | inr some ↦ ground arith
      ]
      | inr odd ↦ ground arith
    ]
