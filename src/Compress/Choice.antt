-- ===== src/Compress/Choice.antt =====
-- What es3/compressor.cpp goes by when it chooses to compress a file.
use extremes.Base.{ℕ, ◌≡◌, Bytes, false, not, ◌&&◌, ltb, arith, refl, Bool-cases, inl, inr}
use extremes.Compress.{should_compress, char_is, is_one_of, packed, minimal_block}

char_is_lem : (byte : ℕ) → char_is byte 0x8b ≡ false
unfolding char_is
char_is_lem byte = ground arith

-- Whatever a file starts with, it is compressed exactly when its extension is none of the packed ones
-- and it is larger than a block of one mebibyte.
should_compress-size :
    (ext : Bytes) (sz m0 m1 m2 m3 : ℕ)
    → should_compress ext sz m0 m1 m2 m3 ≡ (not (is_one_of ext packed) && ltb minimal_block sz)
unfolding should_compress
should_compress-size ext sz m0 m1 m2 m3 =
    let never = char_is_lem m1 in
    elim (Bool-cases (is_one_of ext packed)) [
      | inl is_packed ↦ rw (is_packed, should_compress) refl
      | inr plain ↦ rw (plain, should_compress) (ground (arith, never))
    ]
