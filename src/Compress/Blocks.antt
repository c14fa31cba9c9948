-- ===== src/Compress/Blocks.antt =====
-- The blocks of es3/compressor.cpp tile the file.
use extremes.Base.{
  ℕ, zero, suc, ◌+◌, ◌-◌, ◌*◌, ◌/◌, ◌≤◌, ◌<◌, ◌≡◌, refl, subst, ◌∙◌, sym, inl, inr, List, [], ◌∷◌,
  arith, ltb, if◌then◌else◌,
}
use native.Mathlib.Nat.{mul-le-mul_left, div-le_self, le-div_iff_mul-le}
use extremes.Segments.{parts, parts-StartsInside, parts-enough, parts-pos, parts-segment_count}
use extremes.Compress.{Block, make_block, block_loop, block_size, file_compressor, minimal_block}

-- The blocks follow on each other from `from` to `to`, none of them empty.
abbrev pub Tiles : ℕ → ℕ → List Block → Type 0
Tiles from to [] = from ≡ to
Tiles from to (b ∷ bs) = (b.offset ≡ from) × (0 < b.size) × Tiles (b.offset + b.size) to bs

block_loop-Tiles :
    (size k f left : ℕ)
    → 0 < k
    → k * (f + left) < size
    → size ≤ k * (f + left) + k
    → Tiles (k * f) size (block_loop size k f (suc left))
unfolding block_loop
block_loop-Tiles size k f zero pos low high =
    let same : k * (f + 0) ≡ k * f = omega arith in
    (refl, ground (arith, low, same), ground (arith, low, high, same))
block_loop-Tiles size k f (suc left) pos low high =
    let shift : k * (f + suc left) ≡ k * (f + 1 + left) = omega arith in
    let next : k * (f + 1) ≡ k * f + k = omega arith in
    let fits = mul-le-mul_left {m = f + 1} {n = f + suc left} k (omega arith) in
    let whole : (make_block size k f).size ≡ k = ground (arith, low, fits, next) in
    let start : k * (f + 1) ≡ k * f + (make_block size k f).size = omega arith in
    let rest =
      block_loop-Tiles size k (f + 1) left pos (omega (arith, low)) (omega (arith, high)) in
    (
      refl,
      omega (arith, whole),
      subst (λ m. Tiles m size (block_loop size k (f + 1) (suc left))) start rest,
    )

block_size-pos :
    (file_sz capability : ℕ)
    → minimal_block < file_sz
    → 0 < capability
    → 0 < block_size file_sz capability
unfolding block_size
block_size-pos file_sz capability h pos =
    let most = div-le_self file_sz minimal_block in
    let some : 0 < file_sz / minimal_block = omega arith in
    let estimate =
      if ltb capability (file_sz / minimal_block) then capability else file_sz / minimal_block in
    let at_least : 0 < estimate = ground arith in
    let at_most : 1 * estimate ≤ file_sz = ground arith in
    (le-div_iff_mul-le {k = estimate} {x = 1} {y = file_sz} at_least).1 at_most

-- A file of more than a mebibyte is cut, for any number of threads but 0, into blocks that follow on
-- each other from its first byte to its last, none of them empty.
pub file_compressor-Tiles :
    (file_sz capability : ℕ)
    → minimal_block < file_sz
    → 0 < capability
    → Tiles 0 file_sz (file_compressor file_sz capability)
unfolding file_compressor
file_compressor-Tiles file_sz capability h pos =
    let k = block_size file_sz capability in
    let k-pos = block_size-pos file_sz capability h pos in
    let same = parts-segment_count k file_sz (omega arith) in
    let n = parts file_sz k in
    let some = parts-pos file_sz k in
    let last : k * (n - 1) < file_sz =
      elim (parts-StartsInside k file_sz (n - 1) k-pos (omega arith)) [
        | inl inside ↦ inside
        | inr empty ↦ omega (arith, empty)
      ] in
    let enough = parts-enough k file_sz k-pos in
    let count : n ≡ suc (n - 1) = omega arith in
    let next : k * suc (n - 1) ≡ k * (n - 1) + k = omega arith in
    let none : k * 0 ≡ 0 = omega arith in
    let from : 0 + (n - 1) ≡ n - 1 = omega arith in
    let tiles =
      block_loop-Tiles file_sz k 0 (n - 1) k-pos (rw from last)
        (rw from (omega (arith, subst (λ m. file_sz ≤ k * m) count enough, next))) in
    subst (λ m. Tiles 0 file_sz (block_loop file_sz k 0 m)) (sym count ∙ same)
      (subst (λ m. Tiles m file_sz (block_loop file_sz k 0 (suc (n - 1)))) none tiles)
