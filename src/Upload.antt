-- ===== src/Upload.antt =====
-- es3/uploader.cpp: how a file is cut into segments, read, and put together on the remote side.
pub mod Plan
pub mod Chunks
pub mod Reading
pub mod Whole
pub mod Parts
pub mod File
use extremes.Base.{
  ℕ, zero, suc, ◌+◌, ◌-◌, ◌*◌, ◌/◌, ◌%◌, ◌^◌, min, Bool, true, false, List, [], ◌∷◌, ◌++◌, Option,
  none, some, Bytes, ltb, leb, ◌==◌, if◌then◌else◌, length, take, drop,
}
use extremes.Segments.{segment_count}

-- A pump reads `count` segments from segment number `first` on.
pub record Pump : Type 0 where
  pub first : ℕ
  pub count : ℕ

-- `err(errFatal)`, a division by zero, and a `for` loop that never ends.
pub data PlanError : Type 0 where
  too_big divides_by_zero never_ends : PlanError

pub data Planned {ℓ} (A : Type ℓ) : Type ℓ where
  planned : A → Planned A
  refused : PlanError → Planned A

-- `size` of `start_upload`, a `uint64_t`.
unfoldable pub total_size : List ℕ → ℕ
total_size [] = 0
total_size (s ∷ sizes) = (s + total_size sizes) % 2 ^ 64

abbrev pub max_part_num : ℕ
max_part_num = 10_000

-- `num_per_pump`, by the number of reader threads and the number of segments in flight.
unfoldable pub per_pump : ℕ → ℕ → ℕ → ℕ
per_pump segments capability max_in_flight =
    let wanted = segments / capability + 1 in
    if ltb (max_in_flight / 2) wanted then max_in_flight / 2 else wanted

-- `for(f=0; f<number_of_segments; f+=num_per_pump)` with fuel for its rounds; `none` means that the
-- fuel ran out.
unfoldable pub pump_loop : ℕ → ℕ → ℕ → ℕ → Option (List Pump)
pump_loop zero f segments per = if ltb f segments then none else some []
pump_loop (suc left) f segments per = elim (ltb f segments) [
  | true ↦
      let cur = if ltb per (segments - f) then per else segments - f in
      elim (pump_loop left (f + per) segments per) [
        | none ↦ none
        | some pumps ↦ some (record { first = f; count = cur } ∷ pumps)
      ]
  | false ↦ some []
]

-- The pumps that `start_upload` schedules for files of these sizes, with the number of segments,
-- which becomes `num_parts_`. A round of the loop that moves on covers a segment, so that the
-- number of segments is fuel enough, unless `num_per_pump` is 0.
unfoldable pub start_upload : List ℕ → ℕ → ℕ → ℕ → Planned (ℕ × List Pump)
unfolding total_size segment_count per_pump pump_loop
start_upload sizes segment_size capability max_in_flight =
    let counted = segment_count (total_size sizes) segment_size in
    let segments = if counted == 0 then 1 else counted in
    if segment_size == 0
    then refused divides_by_zero
    else if ltb max_part_num counted
    then refused too_big
    else if capability == 0
    then refused divides_by_zero
    else elim (pump_loop segments 0 segments (per_pump segments capability max_in_flight)) [
      | none ↦ refused never_ends
      | some pumps ↦ planned (segments, pumps)
    ]

-- Where a pump stands: the pieces from `cur_piece` on, and `offset_within_` in the first of them.
pub record Position : Type 0 where
  pub pieces : List Bytes
  pub offset : ℕ

-- The loop that skips to the pump's offset. Past the end of all pieces it leaves the start of the
-- first one.
unfoldable pub skip_to : List Bytes → ℕ → List Bytes → ℕ → Position
skip_to all start [] skipped = record { pieces = all; offset = 0 }
skip_to all start (p ∷ ps) skipped =
    if ltb start (skipped + length p)
    then record { pieces = p ∷ ps; offset = start - skipped }
    else skip_to all start ps (skipped + length p)

abbrev pub after_part : Bytes → Bytes × Position → Bytes × Position
after_part part (more, end) = (part ++ more, end)

-- The `while` loop that fills one segment: what it reads, and where it stops. The inner loop over
-- `read` gets `remaining_size` bytes of the piece, in whatever portions.
unfoldable pub fill : ℕ → ℕ → List Bytes → ℕ → Bytes × Position
fill segment_size so_far [] offset = ([], record { pieces = []; offset = offset })
fill segment_size so_far (p ∷ []) offset =
    let remaining = min (segment_size - so_far) (length p - offset) in
    (take remaining (drop offset p), record { pieces = p ∷ []; offset = offset + remaining })
fill segment_size so_far (p ∷ q ∷ ps) offset =
    let remaining = min (segment_size - so_far) (length p - offset) in
    let part = take remaining (drop offset p) in
    if length p == offset + remaining
    then if ltb (so_far + remaining) segment_size
      then after_part part (fill segment_size (so_far + remaining) (q ∷ ps) 0)
      else (part, record { pieces = q ∷ ps; offset = 0 })
    else (part, record { pieces = p ∷ q ∷ ps; offset = offset + remaining })

-- `file_pump::operator()`: the data of its segments, in the order of their part upload tasks.
unfoldable pub read_segments : ℕ → ℕ → Position → List Bytes
unfolding fill
read_segments segment_size zero pos = []
read_segments segment_size (suc count) pos =
    let (data_, end) = fill segment_size 0 pos.pieces pos.offset in
    data_ ∷ read_segments segment_size count end

unfoldable pub pump : ℕ → List Bytes → Pump → List Bytes
unfolding skip_to read_segments
pump segment_size pieces p =
    read_segments segment_size p.count (skip_to pieces (segment_size * p.first) pieces 0)
