-- ===== src/Tests/Segments.antt =====
-- Runs of es3/downloader.cpp and es3/compressor.cpp.
use extremes.Base.{
  inl, inr, ℕ, ◌≡◌, refl, ◌<◌, ◌≤◌, ◌^◌, arith, true, false, List, [], ◌∷◌, All, Bytes, codes,
  length,
}
use extremes.Segments.{parts, segment_count, range}
use extremes.Download.{
  file_there, clear, stat_of, FileDesc, file_downloader, begun, new_content, write_all,
  max_segments,
}
use extremes.Download.Whole.{IsStale, IsIn, write_all-remote}
use extremes.Compress.{minimal_block, file_compressor}
use extremes.Compress.Blocks.{Tiles, file_compressor-Tiles}
use extremes.Compress.Pending.{Steps, started, ended, on_complete-finishes}

abbrev contents : Bytes
contents = codes "scattered"

abbrev desc : FileDesc
desc = record {
  mtime = 5;
  raw_size = 9;
  remote_size = 9;
  mode = 420;
  compressed = false;
  found = true;
}

abbrev order : List ℕ
order = 2 ∷ 0 ∷ 1 ∷ []

segment-pos : ◌<◌ 0 4
segment-pos = omega arith

contents-small : length contents < 2 ^ 64
contents-small = omega arith

desc-IsStale : IsStale desc (stat_of (clear true (file_there 5 9)))
desc-IsStale = inr (inl (omega arith))

contents-fit : segment_count (length contents) 4 ≤ max_segments
unfolding segment_count
contents-fit = omega arith

order-numbers : All (λ i. i < parts (length contents) 4) order
unfolding segment_count
order-numbers = omega arith

order-every : (i : ℕ) → i < parts (length contents) 4 → IsIn i order
unfolding segment_count
order-every i lt = omega (arith, lt)

order-count : length order ≡ parts (length contents) 4
unfolding segment_count
order-count = refl

write_all-remote_example :
    (file_downloader true desc (file_there 5 9) 4 ≡ (
      clear true (file_there 5 9),
      begun (new_content desc (parts (length contents) 4)) (range 0 (parts (length contents) 4)),
    ))
    × ((write_all contents 4 order (new_content desc (parts (length contents) 4))).local_file
        ≡ contents)
    × ((write_all contents 4 order (new_content desc (parts (length contents) 4))).segments_read
        ≡ parts (length contents) 4)
    × ((write_all contents 4 order (new_content desc (parts (length contents) 4))).finished ≡ 1)
write_all-remote_example =
    write_all-remote contents desc true (file_there 5 9) 4 order segment-pos contents-small refl
      desc-IsStale refl contents-fit order-numbers order-every order-count

on_complete-finishes_example : Steps (started 3) (ended 3)
on_complete-finishes_example = on_complete-finishes 3

-- Three million bytes, on eight threads.
large-size : minimal_block < 3_000_000
large-size = omega arith

some-threads : ◌<◌ 0 8
some-threads = omega arith

file_compressor-Tiles_example : Tiles 0 3_000_000 (file_compressor 3_000_000 8)
file_compressor-Tiles_example = file_compressor-Tiles 3_000_000 8 large-size some-threads
