-- ===== src/Tests/Files.antt =====
-- Runs of es3/uploader.cpp: the plan of a file, and what its pumps read.
use extremes.Base.{
  ℕ, ◌≡◌, refl, ◌<◌, ◌≤◌, ◌/◌, ◌^◌, arith, List, [], ◌∷◌, All, Bytes, codes, map, length,
}
use extremes.Segments.{segment_count, parts, range}
use extremes.Upload.{
  Pump, planned, refused, never_ends, start_upload, total_size, pump, max_part_num,
}
use extremes.Base.{none}
use extremes.Upload.{pump_loop, per_pump}
use extremes.Upload.Chunks.{flat, chunks}
use extremes.Upload.Plan.{segments_of, IsWithin, start_upload-planned, start_upload-never_ends}
use extremes.Upload.Whole.{sent, sent-whole}

abbrev sizes : List ℕ
sizes = 10_000_000 ∷ 5_000_000 ∷ []

abbrev segment_size : ℕ
segment_size = 4_000_000

sizes_fit : segment_count (total_size sizes) segment_size ≤ max_part_num
unfolding segment_count total_size
sizes_fit = omega arith

two_in_flight : ◌≤◌ 2 4
two_in_flight = omega arith

one_in_flight : ◌<◌ 1 2
one_in_flight = omega arith

size-pos : 0 < segment_size
size-pos = omega arith

readers-pos : ◌<◌ 0 3
readers-pos = omega arith

start_upload-planned_example :
    (pumps : List Pump) × (start_upload sizes segment_size 3 4
      ≡ planned (parts (total_size sizes) segment_size, pumps))
    × (segments_of pumps ≡ range 0 (parts (total_size sizes) segment_size))
    × All (IsWithin (4 / 2)) pumps
start_upload-planned_example =
    start_upload-planned sizes segment_size 3 4 size-pos readers-pos two_in_flight sizes_fit

start_upload-never_ends_example :
    (start_upload sizes segment_size 3 1 ≡ refused never_ends)
    × ((fuel : ℕ)
        → pump_loop fuel 0
            (parts (total_size sizes) segment_size)
            (per_pump (parts (total_size sizes) segment_size) 3 1)
          ≡ none)
start_upload-never_ends_example =
    start_upload-never_ends sizes segment_size 3 1 size-pos readers-pos one_in_flight sizes_fit

-- Three pieces, as the compressor leaves them, in segments of three bytes.
abbrev pieces : List Bytes
pieces = codes "scat" ∷ codes "" ∷ codes "tered" ∷ []

pieces_small : length (flat pieces) < 2 ^ 64
pieces_small = omega arith

pieces_fit : segment_count (length (flat pieces)) 3 ≤ max_part_num
unfolding segment_count
pieces_fit = omega arith

three-pos : ◌<◌ 0 3
three-pos = omega arith

sent-whole_example :
    (pumps : List Pump) × (start_upload (map length pieces) 3 3 4
      ≡ planned (parts (length (flat pieces)) 3, pumps))
    × (sent 3 pieces pumps ≡ chunks 3 (parts (length (flat pieces)) 3) (flat pieces))
    × (flat (sent 3 pieces pumps) ≡ flat pieces)
sent-whole_example =
    sent-whole pieces 3 3 4 pieces_small three-pos readers-pos two_in_flight pieces_fit

second_pump : pump 3 pieces (record { first = 1; count = 2 }) ≡ codes "tte" ∷ codes "red" ∷ []
unfolding pump
second_pump = refl
