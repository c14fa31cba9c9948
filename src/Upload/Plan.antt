-- ===== src/Upload/Plan.antt =====
-- The pumps of an upload share its segments out.
use extremes.Base.{
  ℕ, zero, suc, ◌+◌, ◌-◌, ◌/◌, ◌≤◌, ◌<◌, ◌≡◌, refl, ap, ap₂, subst, ◌∙◌, sym, ◌⊎◌, inl, inr, true,
  false, List, [], ◌∷◌, ◌++◌, Option, none, some, arith, ltb, if◌then◌else◌, All, Bool-cases,
}
use extremes.Segments.{segment_count, parts, parts-pos, range}
use mathlib.Core.List.{append-nil}
use extremes.Upload.{
  Pump, planned, refused, never_ends, total_size, per_pump, pump_loop, start_upload, max_part_num,
}

-- The segments that the pumps read, pump after pump.
abbrev pub segments_of : List Pump → List ℕ
segments_of [] = []
segments_of (p ∷ ps) = range p.first p.count ++ segments_of ps

abbrev pub IsWithin : ℕ → Pump → Type 0
IsWithin per p = (0 < p.count) × (p.count ≤ per)

range-append : (i j m n t : ℕ) → i + m ≡ j → m + n ≡ t → range i m ++ range j n ≡ range i t
range-append i j zero n t e f = ap₂ range (omega arith) (omega arith)
range-append i j (suc m) n t e f =
    let more : suc (m + n) ≡ t = omega arith in
    subst (λ k. range i (suc m) ++ range j n ≡ range i k) more
      (ap (◌∷◌ i) (range-append (suc i) j m n (m + n) (omega arith) refl))

module _ (segments per : ℕ) (pos : 0 < per) where
  -- What a run of the loop has to give from `f` on.
  abbrev Covers : ℕ → Option (List Pump) → Type 0
  Covers f r =
      (pumps : List Pump) × (r ≡ some pumps)
      × (segments_of pumps ≡ range f (segments - f))
      × All (IsWithin per) pumps

  next-Covers :
      (f cur : ℕ) (r : Option (List Pump))
      → (if ltb per (segments - f) then per else segments - f) ≡ cur
      → f < segments
      → Covers (f + per) r
      → Covers f
          (elim r [ none ↦ none | some pumps ↦ some (record { first = f; count = cur } ∷ pumps) ])
  next-Covers f cur r e h (pumps, found, same, within) = (
    record { first = f; count = cur } ∷ pumps,
    rw found,
    ap (λ l. range f cur ++ l) same ∙ tail (Bool-cases (ltb per (segments - f))),
    ((ground arith, ground arith), within),
  )
    where
      tail :
          (ltb per (segments - f) ≡ true) ⊎ (ltb per (segments - f) ≡ false)
          → range f cur ++ range (f + per) (segments - (f + per)) ≡ range f (segments - f)
      tail (inl more) =
          range-append f (f + per) cur (segments - (f + per)) (segments - f) (ground arith)
            (ground arith)
      tail (inr last) =
          let over : segments - (f + per) ≡ 0 = ground arith in
          let all : segments - f ≡ cur = ground arith in rw (over, all) (append-nil (range f cur))

  pump_loop-Covers : (fuel f : ℕ) → segments ≤ f + fuel → Covers f (pump_loop fuel f segments per)
  unfolding pump_loop
  pump_loop-Covers zero f h =
      let over : segments - f ≡ 0 = omega arith in ([], ground arith, rw over, tt)
  pump_loop-Covers (suc left) f h = elim (Bool-cases (ltb f segments)) [
    | inl more ↦
        rw (more, pump_loop)
          (next-Covers f _ _ refl (ground arith) (pump_loop-Covers left (f + per) (omega arith)))
    | inr over ↦
        let none_left : segments - f ≡ 0 = ground arith in
        ([], rw (over, pump_loop), rw none_left, tt)
  ]

per_pump-bounds :
    (segments capability max_in_flight : ℕ)
    → 2 ≤ max_in_flight
    → (0 < per_pump segments capability max_in_flight)
      × (per_pump segments capability max_in_flight ≤ max_in_flight / 2)
unfolding per_pump
per_pump-bounds segments capability max_in_flight h = ground arith

All-mono {ℓ μ ν} :
    {A : Type ℓ} (P : A → Type μ) (Q : A → Type ν) (xs : List A)
    → ((a : A) → P a → Q a)
    → All P xs
    → All Q xs
All-mono P Q [] h p = tt
All-mono P Q (x ∷ xs) h p = (h x p.0, All-mono P Q xs h p.1)

-- With at least two segments in flight, a positive segment size and a reader thread, a file of at
-- most ten thousand segments is planned: the loop ends, the pumps cover every segment exactly once
-- and in order, and none is empty or needs more than half of the segments that may be in flight.
pub start_upload-planned :
    (sizes : List ℕ) (segment_size capability max_in_flight : ℕ)
    → 0 < segment_size
    → 0 < capability
    → 2 ≤ max_in_flight
    → segment_count (total_size sizes) segment_size ≤ max_part_num
    → (pumps : List Pump) × (start_upload sizes segment_size capability max_in_flight
        ≡ planned (parts (total_size sizes) segment_size, pumps))
      × (segments_of pumps ≡ range 0 (parts (total_size sizes) segment_size))
      × All (IsWithin (max_in_flight / 2)) pumps
unfolding start_upload
start_upload-planned sizes segment_size capability max_in_flight hs hc hm fits =
    let n = parts (total_size sizes) segment_size in
    let per = per_pump n capability max_in_flight in
    let (pos, half) = per_pump-bounds n capability max_in_flight hm in
    let (pumps, found, covered, within) = pump_loop-Covers n per pos n 0 (omega arith) in
    (
      pumps,
      ground arith,
      covered ∙ ap (range 0) (omega arith),
      All-mono (IsWithin per) (IsWithin (max_in_flight / 2)) pumps
          (λ p w. (w.0, omega (arith, w.1))) within,
    )

pump_loop-stuck : (fuel f segments : ℕ) → f < segments → pump_loop fuel f segments 0 ≡ none
unfolding pump_loop
pump_loop-stuck zero f segments h = ground arith
pump_loop-stuck (suc left) f segments h =
    let same : f + 0 ≡ f = omega arith in
    let rest =
      subst (λ g. pump_loop left g segments 0 ≡ none) (sym same)
        (pump_loop-stuck left f segments h) in
    ground arith

per_pump-one :
    (segments capability max_in_flight : ℕ)
    → max_in_flight < 2
    → per_pump segments capability max_in_flight ≡ 0
unfolding per_pump
per_pump-one segments capability max_in_flight h = ground arith

-- With fewer than two segments in flight, a positive segment size, a reader thread and at most ten
-- thousand segments, the loop that schedules the pumps does not end: it runs out of every fuel, and so
-- the plan runs out of its own.
pub start_upload-never_ends :
    (sizes : List ℕ) (segment_size capability max_in_flight : ℕ)
    → 0 < segment_size
    → 0 < capability
    → max_in_flight < 2
    → segment_count (total_size sizes) segment_size ≤ max_part_num
    → (start_upload sizes segment_size capability max_in_flight ≡ refused never_ends)
      × ((fuel : ℕ)
          → pump_loop fuel 0
              (parts (total_size sizes) segment_size)
              (per_pump (parts (total_size sizes) segment_size) capability max_in_flight)
            ≡ none)
unfolding start_upload
start_upload-never_ends sizes segment_size capability max_in_flight hs hc hm fits =
    let n = parts (total_size sizes) segment_size in
    let none_per = per_pump-one n capability max_in_flight hm in
    let stuck : (fuel : ℕ) → pump_loop fuel 0 n (per_pump n capability max_in_flight) ≡ none =
      λ fuel.
        subst (λ k. pump_loop fuel 0 n k ≡ none) (sym none_per)
          (pump_loop-stuck fuel 0 n (parts-pos (total_size sizes) segment_size)) in
    let own : pump_loop n 0 n (per_pump n capability max_in_flight) ≡ none = stuck n in
    (ground arith, stuck)
