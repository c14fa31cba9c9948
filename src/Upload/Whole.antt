-- ===== src/Upload/Whole.antt =====
-- The upload of a whole file: es3/uploader.cpp from `start_upload` to the parts that are sent.
use extremes.Base.{
  ℕ, zero, suc, ◌+◌, ◌*◌, ◌/◌, ◌^◌, ◌≤◌, ◌<◌, ◌≡◌, refl, sym, ap, ap₂, subst, ◌∙◌, List, [], ◌∷◌,
  ◌++◌, arith, map, length, take, drop, Bytes, length-append, All,
}
use extremes.Segments.{
  segment_count, parts, range, range-All, StartsInside, parts-StartsInside, parts-enough,
}
use extremes.Upload.{Pump, planned, total_size, start_upload, max_part_num, pump}
use extremes.Upload.Chunks.{flat, chunks, drop-drop, flat-chunks}
use extremes.Upload.Plan.{segments_of, IsWithin, start_upload-planned}
use extremes.Upload.Reading.{pump-chunks}

-- What all pumps read, in the order of the segments' numbers.
abbrev pub sent : ℕ → List Bytes → List Pump → List Bytes
sent segment_size pieces [] = []
sent segment_size pieces (p ∷ ps) = pump segment_size pieces p ++ sent segment_size pieces ps

-- The segment of number `i`.
abbrev segment : ℕ → Bytes → ℕ → Bytes
segment k contents i = take k (drop (k * i) contents)

map-append {ℓ μ} :
    {A : Type ℓ} {B : Type μ} (f : A → B) (xs ys : List A) → map f (xs ++ ys) ≡ map f xs ++ map f ys
map-append f [] ys = refl
map-append f (x ∷ xs) ys = ap (◌∷◌ (f x)) (map-append f xs ys)

chunks-range :
    (k i n : ℕ) (contents : Bytes)
    → chunks k n (drop (k * i) contents) ≡ map (segment k contents) (range i n)
chunks-range k i zero contents = refl
chunks-range k i (suc n) contents =
    let next : k * i + k ≡ k * suc i = omega arith in
    ap (◌∷◌ (segment k contents i)) (
      ap (chunks k n) (drop-drop k (k * i) contents ∙ ap (λ m. drop m contents) next)
      ∙ chunks-range k (suc i) n contents)

range-first :
    (P : ℕ → Type 0) (p : Pump) (rest : List ℕ)
    → 0 < p.count
    → All P (range p.first p.count ++ rest)
    → P p.first × All P rest
range-first P p rest h all = go p.first p.count h all
  where
    go : (i n : ℕ) → 0 < n → All P (range i n ++ rest) → P i × All P rest
    go i zero h all = ground (arith, h)
    go i (suc zero) h all = (all.0, all.1)
    go i (suc (suc n)) h all = (all.0, (go (suc i) (suc n) (omega arith) all.1).1)

sent-segments :
    (k per : ℕ) (pieces : List Bytes) (ps : List Pump)
    → All (IsWithin per) ps
    → All (StartsInside k (length (flat pieces))) (segments_of ps)
    → sent k pieces ps ≡ map (segment k (flat pieces)) (segments_of ps)
sent-segments k per pieces [] within inside = refl
sent-segments k per pieces (p ∷ ps) within inside =
    let (here, more) =
      range-first (StartsInside k (length (flat pieces))) p (segments_of ps) within.0.0 inside in
    ap₂ ◌++◌ (pump-chunks k pieces p here ∙ chunks-range k p.first p.count (flat pieces))
      (sent-segments k per pieces ps within.1 more)
    ∙ sym (map-append (segment k (flat pieces)) (range p.first p.count) (segments_of ps))

total_size-flat :
    (pieces : List Bytes)
    → length (flat pieces) < 2 ^ 64
    → total_size (map length pieces) ≡ length (flat pieces)
unfolding total_size
total_size-flat [] h = refl
total_size-flat (p ∷ ps) h =
    let more : length (flat ps) < 2 ^ 64 = omega (arith, h, length-append p (flat ps)) in
    omega (arith, h, total_size-flat ps more, length-append p (flat ps))

-- A file, in one or more pieces, that fits the limits: `start_upload` plans pumps that read, in the
-- order of the segments' numbers, the pieces' bytes cut into segments; and these bytes put together
-- are the bytes of the pieces put together. The limits are: less than 2^64 bytes, a positive segment
-- size, a reader thread, two segments in flight, and ten thousand parts.
pub sent-whole :
    (pieces : List Bytes) (segment_size capability max_in_flight : ℕ)
    → length (flat pieces) < 2 ^ 64
    → 0 < segment_size
    → 0 < capability
    → 2 ≤ max_in_flight
    → segment_count (length (flat pieces)) segment_size ≤ max_part_num
    → (pumps : List Pump) × (start_upload (map length pieces) segment_size capability max_in_flight
        ≡ planned (parts (length (flat pieces)) segment_size, pumps))
      × (sent segment_size pieces pumps
          ≡ chunks segment_size (parts (length (flat pieces)) segment_size) (flat pieces))
      × (flat (sent segment_size pieces pumps) ≡ flat pieces)
sent-whole pieces k capability max_in_flight small hs hc hm fits =
    let size = length (flat pieces) in
    let n = parts size k in
    let total = total_size-flat pieces small in
    let (pumps, found, covered, within) =
      subst
        (λ t.
          (pumps : List Pump) × (start_upload (map length pieces) k capability max_in_flight
            ≡ planned (parts t k, pumps))
          × (segments_of pumps ≡ range 0 (parts t k))
          × All (IsWithin (max_in_flight / 2)) pumps)
        total
        (start_upload-planned (map length pieces) k capability max_in_flight hs hc hm
          (rw total fits)) in
    let inside =
      range-All (StartsInside k size) 0 n
        (λ j lt. parts-StartsInside k size j hs (omega (arith, lt))) in
    let none : k * 0 ≡ 0 = omega arith in
    let cut =
      sent-segments k (max_in_flight / 2) pieces pumps within (rw covered inside)
      ∙ ap (map (segment k (flat pieces))) covered
      ∙ sym (chunks-range k 0 n (flat pieces))
      ∙ ap (λ m. chunks k n (drop m (flat pieces))) none in
    (pumps, found, cut, ap flat cut ∙ flat-chunks k n (flat pieces) (parts-enough k size hs))
