-- ===== src/Upload/Reading.antt =====
-- What the pumps of es3/uploader.cpp read: the segments of the pieces put together.
use extremes.Base.{
  ℕ, zero, suc, ◌+◌, ◌-◌, ◌*◌, ◌≤◌, ◌<◌, ◌≡◌, ◌⊎◌, inl, inr, refl, sym, ap, ap₂, subst, ◌∙◌, List,
  [], ◌∷◌, ◌++◌, arith, min, length, take, drop, Bytes, Bool-cases, ltb, ◌==◌, length-append,
  length-drop,
}
use mathlib.Core.List.{append-nil}
use extremes.Upload.{Pump, Position, skip_to, fill, read_segments, pump}
use extremes.Upload.Chunks.{
  take-append, drop-append, take_all, drop_all, take-min, drop-min, drop-drop, flat, chunks,
}

-- What lies between a position and the end.
abbrev pub rest : Position → Bytes
rest pos = drop pos.offset (flat pos.pieces)

-- The offset lies within the first piece.
abbrev pub IsInside : List Bytes → ℕ → Type 0
IsInside [] offset = Unit
IsInside (p ∷ ps) offset = offset ≤ length p

drop-within : (n : ℕ) (xs ys : Bytes) → n ≤ length xs → drop n (xs ++ ys) ≡ drop n xs ++ ys
drop-within n xs ys h =
    let none : n - length xs ≡ 0 = omega arith in drop-append n xs ys ∙ rw none refl

skip_to-rest :
    (all ps : List Bytes) (start skipped : ℕ)
    → skipped ≤ start
    → start < skipped + length (flat ps)
    → (rest (skip_to all start ps skipped) ≡ drop (start - skipped) (flat ps))
      × IsInside (skip_to all start ps skipped).pieces (skip_to all start ps skipped).offset
unfolding skip_to
skip_to-rest all [] start skipped h lt = ground arith
skip_to-rest all (p ∷ ps) start skipped h lt = elim (Bool-cases (ltb start (skipped + length p))) [
  | inl here ↦ rw (here, skip_to) (refl, ground arith)
  | inr later ↦
      let next =
        skip_to-rest all ps start (skipped + length p) (ground arith)
          (omega (arith, lt, length-append p (flat ps))) in
      let gone : drop (start - skipped) p ≡ [] = drop_all (start - skipped) p (ground arith) in
      let left : start - skipped - length p ≡ start - (skipped + length p) = omega arith in
      rw (later, skip_to)
        (next.0 ∙ sym (drop-append (start - skipped) p (flat ps) ∙ rw (gone, left) refl), next.1)
]

-- The loop reads what there is of the segment, and stops right behind it.
abbrev IsFilled : ℕ → Bytes → Bytes × Position → Type 0
IsFilled n before (got, end) =
    (got ≡ take n before) × (rest end ≡ drop n before) × IsInside end.pieces end.offset

module _ (n : ℕ) (d b : Bytes) where
  IsFilled-whole :
      (more : Bytes) (end : Position)
      → length d ≤ n
      → IsFilled (n - length d) b (more, end)
      → IsFilled n (d ++ b) (d ++ more, end)
  IsFilled-whole more end h (got, left, inside) = (
    ap (λ l. d ++ l) got ∙ sym (take-append n d b ∙ rw (take_all n d h) refl),
    left ∙ sym (drop-append n d b ∙ rw (drop_all n d h) refl),
    inside,
  )

  take-within : n ≤ length d → take n (d ++ b) ≡ take n d
  take-within h =
      let none : n - length d ≡ 0 = omega arith in
      take-append n d b ∙ rw none (append-nil (take n d))

fill-IsFilled :
    (k s : ℕ) (ps : List Bytes) (offset : ℕ)
    → IsInside ps offset
    → IsFilled (k - s) (drop offset (flat ps)) (fill k s ps offset)
unfolding fill
fill-IsFilled k s [] offset h =
    let empty : Bytes = [] in
    let none : drop offset empty ≡ [] = drop_all offset empty (omega arith) in
    (
      rw none (sym (take_all (k - s) empty (omega arith))),
      rw none (sym (drop_all (k - s) empty (omega arith))),
      tt,
    )
fill-IsFilled k s (p ∷ []) offset h =
    let d = drop offset p in
    let r = min (k - s) (length p - offset) in
    let size : length d ≡ length p - offset = length-drop offset p in
    let before : drop offset (p ++ []) ≡ d = ap (drop offset) (append-nil p) in
    let shown : r ≡ min (k - s) (length d) = ap (min (k - s)) (sym size) in
    (
      rw (before, shown) (take-min (k - s) d),
      sym (drop-drop r offset (p ++ [])) ∙ rw (before, shown) (drop-min (k - s) d),
      omega (arith, h),
    )
fill-IsFilled k s (p ∷ q ∷ ps) offset h =
    let d = drop offset p in
    let b = flat (q ∷ ps) in
    let r = min (k - s) (length p - offset) in
    let size : length d ≡ length p - offset = length-drop offset p in
    let before : drop offset (p ++ b) ≡ d ++ b = drop-within offset p b h in
    elim (Bool-cases (length p == offset + r)) [
      | inl whole ↦
          let long : length d ≤ k - s = ground arith in
          let all : take r d ≡ d = take_all r d (ground arith) in
          elim (Bool-cases (ltb (s + r) k)) [
            | inl again ↦
                let left : k - (s + r) ≡ k - s - length d = ground arith in
                let next = fill-IsFilled k (s + r) (q ∷ ps) 0 (omega arith) in
                rw (whole, again, before, all)
                  (IsFilled-whole (k - s) d b _ _ long
                    (subst (λ m. IsFilled m b (fill k (s + r) (q ∷ ps) 0)) left next))
            | inr full ↦
                let none : k - s - length d ≡ 0 = ground arith in
                rw (whole, full, before, all)
                  (
                    sym (
                        take-append (k - s) d b
                        ∙ rw (none, take_all (k - s) d long) (append-nil d)),
                    sym (drop-append (k - s) d b ∙ rw (none, drop_all (k - s) d long) refl),
                    omega arith,
                  )
          ]
      | inr part ↦
          let same : r ≡ k - s = ground arith in
          let within : k - s ≤ length d = ground arith in
          rw (part, before)
            (
              subst (λ m. take m d ≡ take (k - s) (d ++ b)) (sym same)
                  (sym (take-within (k - s) d b within)),
              sym (drop-drop r offset (p ++ b)) ∙ rw (before, same) refl,
              ground arith,
            )
    ]

read_segments-chunks :
    (k n : ℕ) (pos : Position)
    → IsInside pos.pieces pos.offset
    → read_segments k n pos ≡ chunks k n (rest pos)
unfolding read_segments
read_segments-chunks k zero pos h = refl
read_segments-chunks k (suc n) pos h =
    let end = (fill k 0 pos.pieces pos.offset).1 in
    let same : k - 0 ≡ k = omega arith in
    let (got, left, inside) =
      subst (λ m. IsFilled m (rest pos) (fill k 0 pos.pieces pos.offset)) same
        (fill-IsFilled k 0 pos.pieces pos.offset h) in
    ap₂ ◌∷◌ got (read_segments-chunks k n end inside ∙ ap (chunks k n) left)

skip_to-empty :
    (all ps : List Bytes) (start skipped : ℕ)
    → skipped ≤ start
    → length (flat ps) ≡ 0
    → skip_to all start ps skipped ≡ record { pieces = all; offset = 0 }
unfolding skip_to
skip_to-empty all [] start skipped h none = refl
skip_to-empty all (p ∷ ps) start skipped h none =
    ground (arith, length-append p (flat ps), skip_to-empty all ps start (skipped + length p))

start-IsInside : (ps : List Bytes) → IsInside ps 0
start-IsInside [] = tt
start-IsInside (p ∷ ps) = omega arith

-- A pump whose first segment starts within the pieces, or any pump where the pieces are empty, reads
-- its segments of the pieces put together: the pieces' own bounds leave no trace.
pub pump-chunks :
    (k : ℕ) (pieces : List Bytes) (p : Pump)
    → (k * p.first < length (flat pieces)) ⊎ (length (flat pieces) ≡ 0)
    → pump k pieces p ≡ chunks k p.count (drop (k * p.first) (flat pieces))
unfolding pump
pump-chunks k pieces p (inl within) =
    let (left, inside) =
      skip_to-rest pieces pieces (k * p.first) 0 (omega arith) (omega (arith, within)) in
    let same : k * p.first - 0 ≡ k * p.first = omega arith in
    read_segments-chunks k p.count _ inside ∙ ap (chunks k p.count) (left ∙ rw same refl)
pump-chunks k pieces p (inr none) =
    let start = skip_to-empty pieces pieces (k * p.first) 0 (omega arith) none in
    let over = drop_all (k * p.first) (flat pieces) (omega arith) in
    let all = drop_all 0 (flat pieces) (omega arith) in
    rw start (
      read_segments-chunks k p.count _ (start-IsInside pieces)
      ∙ ap (chunks k p.count) (all ∙ sym over))
