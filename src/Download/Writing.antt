-- ===== src/Download/Writing.antt =====
-- What one write of es3/downloader.cpp does to the file.
use extremes.Base.{
  ℕ, zero, suc, ◌+◌, ◌≤◌, ◌<◌, ◌≡◌, refl, ap, false, ◌&&◌, [], ◌∷◌, Bytes, arith, ltb, leb, take,
  drop, length, get_elem?,
}
use extremes.Download.{write_at}

pub length-write_at :
    (offset : ℕ) (data_ file : Bytes)
    → offset + length data_ ≤ length file
    → length (write_at offset data_ file) ≡ length file
unfolding write_at
length-write_at offset [] file h = refl
length-write_at zero (d ∷ data_) [] h = omega (arith, h)
length-write_at zero (d ∷ data_) (x ∷ file) h =
    ap suc (length-write_at zero data_ file (omega (arith, h)))
length-write_at (suc offset) (d ∷ data_) [] h = omega (arith, h)
length-write_at (suc offset) (d ∷ data_) (x ∷ file) h =
    ap suc (length-write_at offset (d ∷ data_) file (omega (arith, h)))

-- A byte outside the written range.
pub get_elem?-write_at_outside :
    (offset : ℕ) (data_ file : Bytes) (j : ℕ)
    → offset + length data_ ≤ length file
    → (leb offset j && ltb j (offset + length data_)) ≡ false
    → get_elem? (write_at offset data_ file) j ≡ get_elem? file j
unfolding write_at
get_elem?-write_at_outside offset [] file j h out = refl
get_elem?-write_at_outside zero (d ∷ data_) [] j h out = ground (arith, h)
get_elem?-write_at_outside zero (d ∷ data_) (x ∷ file) zero h out = ground arith
get_elem?-write_at_outside zero (d ∷ data_) (x ∷ file) (suc j) h out =
    get_elem?-write_at_outside zero data_ file j (omega (arith, h)) (ground arith)
get_elem?-write_at_outside (suc offset) (d ∷ data_) [] j h out = ground (arith, h)
get_elem?-write_at_outside (suc offset) (d ∷ data_) (x ∷ file) zero h out = refl
get_elem?-write_at_outside (suc offset) (d ∷ data_) (x ∷ file) (suc j) h out =
    get_elem?-write_at_outside offset (d ∷ data_) file j (omega (arith, h)) (ground arith)

-- A byte in the written range.
pub get_elem?-write_at_inside :
    (offset : ℕ) (data_ file : Bytes) (i : ℕ)
    → offset + length data_ ≤ length file
    → i < length data_
    → get_elem? (write_at offset data_ file) (offset + i) ≡ get_elem? data_ i
unfolding write_at
get_elem?-write_at_inside offset [] file i h lt = ground (arith, lt)
get_elem?-write_at_inside zero (d ∷ data_) [] i h lt = ground (arith, h)
get_elem?-write_at_inside zero (d ∷ data_) (x ∷ file) zero h lt = refl
get_elem?-write_at_inside zero (d ∷ data_) (x ∷ file) (suc i) h lt =
    let next : 0 + suc i ≡ suc (0 + i) = omega arith in
    rw next (get_elem?-write_at_inside zero data_ file i (omega (arith, h)) (omega (arith, lt)))
get_elem?-write_at_inside (suc offset) (d ∷ data_) [] i h lt = ground (arith, h)
get_elem?-write_at_inside (suc offset) (d ∷ data_) (x ∷ file) i h lt =
    let next : suc offset + i ≡ suc (offset + i) = omega arith in
    rw next (get_elem?-write_at_inside offset (d ∷ data_) file i (omega (arith, h)) lt)

pub get_elem?-take : (n : ℕ) (xs : Bytes) (i : ℕ) → i < n → get_elem? (take n xs) i ≡ get_elem? xs i
get_elem?-take zero xs i lt = ground (arith, lt)
get_elem?-take (suc n) [] i lt = refl
get_elem?-take (suc n) (x ∷ xs) zero lt = refl
get_elem?-take (suc n) (x ∷ xs) (suc i) lt = get_elem?-take n xs i (omega (arith, lt))

pub get_elem?-drop : (o : ℕ) (xs : Bytes) (i : ℕ) → get_elem? (drop o xs) i ≡ get_elem? xs (o + i)
get_elem?-drop zero xs i = ap (get_elem? xs) (omega arith)
get_elem?-drop (suc o) [] i = refl
get_elem?-drop (suc o) (x ∷ xs) i =
    let next : suc o + i ≡ suc (o + i) = omega arith in rw next (get_elem?-drop o xs i)
