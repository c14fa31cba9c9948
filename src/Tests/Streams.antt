-- ===== src/Tests/Streams.antt =====
-- A file that is compressed with a small packer, unpacked again, and cut off.
use extremes.Base.{
  ℕ, ◌+◌, true, ◌≡◌, refl, List, [], ◌∷◌, ◌++◌, Bytes, codes, arith, length, length-replicate,
  replicate, All,
}
use extremes.Compress.Streams.{reached, Temp, compress_file, file_decompressor}
use extremes.Compress.Streams.Deflating.{IsCounted}
use extremes.Compress.Streams.Members.{Members, no_members, one_more}
use extremes.Compress.Streams.Unpacking.{file_decompressor-cut_off}
use extremes.Download.{FileDesc}
use extremes.Download.Finish.{Calls, succeeds, fails}
use extremes.Compress.Streams.RoundTrip.{joined, compress_file-decompressed}
use extremes.Tests.Packer.{
  Packed, small, drain, small-Deflates, deflate_bound_small, small-EpilogueFits, small-Inflates,
}

-- A file of a mebibyte and a byte.
letters : ℕ → Bytes
letters n = replicate n 65

length-letters : (n : ℕ) → length (letters n) ≡ n
unfolding letters
length-letters n = length-replicate n 65

abbrev large : Bytes
large = letters 1_048_577

compress_file-decompressed_example :
    (ts : List Temp) × (compress_file small (λ n. 4095) 1_048_578 large 8 ≡ reached ts)
    × All IsCounted ts
    × (file_decompressor small (λ n. 99) (length (joined ts) + length large) (joined ts)
        ≡ reached large)
compress_file-decompressed_example =
    compress_file-decompressed small small-Deflates small-EpilogueFits (λ n. 4095) 1_048_578 large
      (omega (arith, deflate_bound_small (length large), length-letters 1_048_577)) 8 (λ n. 99)
      small-Inflates (omega (arith, length-letters 1_048_577)) (omega arith)

two-Members : Members Packed (codes "bc" ++ 0 ∷ codes "d" ++ 0 ∷ []) (codes "abc")
two-Members =
    one_more _ _ (codes "bc" ++ 0 ∷ []) (codes "ab") (codes "d" ++ 0 ∷ []) (codes "c") refl
      (one_more _ _ (codes "d" ++ 0 ∷ []) (codes "c") [] [] refl (no_members [] [] refl refl) refl
        refl)
      refl refl

file_decompressor-cut_off_example :
    (front : Bytes) × (back : Bytes) × (codes "abc" ≡ front ++ back)
    × (file_decompressor small (λ n. 1) 8 (codes "bc") ≡ reached front)
file_decompressor-cut_off_example =
    file_decompressor-cut_off small small-Inflates (λ n. 1) 8 (codes "bc") (0 ∷ codes "d" ++ 0 ∷ [])
      (codes "abc") two-Members (omega arith)

-- The run itself: the first two bytes, and no error.
cuts_off : file_decompressor small (λ n. 1) 8 (codes "bc") ≡ reached (codes "ab")
unfolding file_decompressor drain
cuts_off = refl

abbrev packed_bytes : Bytes
packed_bytes = codes "bc" ++ 0 ∷ codes "d" ++ 0 ∷ []

abbrev desc : FileDesc
desc = record {
  mtime = 5;
  raw_size = 3;
  remote_size = 5;
  mode = 420;
  compressed = true;
  found = true;
}

abbrev order : List ℕ
order = 2 ∷ 0 ∷ 1 ∷ []

-- `rename` fails with the error 13.
abbrev refused : Calls
refused = record {
  last_write_time = true;
  chmod = succeeds;
  rename = fails 12 (codes "Failed to replace f");
}
