-- ===== src/Options/Limits.antt =====
-- es3/main.cpp: the options that are let through, and what they mean for an upload.
use extremes.Base.{ℕ, zero, suc, ◌+◌, ◌*◌, ◌/◌, ◌≤◌, ◌<◌, ◌≡◌, ◌≢◌, refl, List, arith, All}
use extremes.Options.{
  ℤ, pos, negsuc, Tuning, tune, or_default, clamp_segments, clamp_segment_size, min_segment_size,
}
use extremes.Segments.{segment_count, parts, range}
use extremes.Upload.{Pump, start_upload, planned, total_size, max_part_num}
use extremes.Upload.Plan.{start_upload-planned, segments_of, IsWithin}

or_default-pos : (d : ℕ) (n : ℤ) → 0 < d → 0 < or_default d n
or_default-pos d (pos zero) h = h
or_default-pos d (pos (suc n)) h = omega arith
or_default-pos d (negsuc n) h = h

clamp_segments-two : (n : ℤ) → n ≢ pos 1 → 2 ≤ clamp_segments n
clamp_segments-two (pos zero) h = omega arith
clamp_segments-two (pos (suc zero)) h = absurd (h refl)
clamp_segments-two (pos (suc (suc n))) h = ground arith
clamp_segments-two (negsuc n) h = omega arith

clamp_segment_size-least : (n : ℤ) → min_segment_size ≤ clamp_segment_size n
clamp_segment_size-least (pos n) = ground arith
clamp_segment_size-least (negsuc n) = omega arith

-- Whatever the tuning options are, unless one asks for exactly one segment in flight, an upload of at
-- most ten thousand segments is planned: its pumps cover every segment once and in order, and none
-- needs more than half of the segments that may be in flight.
pub tune-planned :
    (processors : ℕ) (t : Tuning) (sizes : List ℕ)
    → t.segments ≢ pos 1
    → segment_count (total_size sizes) (tune processors t).segment_size ≤ max_part_num
    → (pumps : List Pump) × (start_upload sizes
          (tune processors t).segment_size
          (tune processors t).num_io_bound
          (tune processors t).max_segments
        ≡ planned (parts (total_size sizes) (tune processors t).segment_size, pumps))
      × (segments_of pumps ≡ range 0 (parts (total_size sizes) (tune processors t).segment_size))
      × All (IsWithin ((tune processors t).max_segments / 2)) pumps
unfolding tune
tune-planned processors t sizes two fits =
    let least = clamp_segment_size-least t.segment_size in
    start_upload-planned sizes (clamp_segment_size t.segment_size)
      (or_default (processors * 2 + 2) t.io_threads) (clamp_segments t.segments) (omega arith)
      (or_default-pos (processors * 2 + 2) t.io_threads (omega arith))
      (clamp_segments-two t.segments two) fits
