-- ===== src/Compress.antt =====
-- es3/compressor.cpp: how a file is cut into blocks, how their ends are counted, and which files are
-- compressed at all.
pub mod Blocks
pub mod Pending
pub mod Choice
pub mod Zlib
pub mod Streams
use extremes.Base.{
  ℕ, zero, suc, ◌+◌, ◌-◌, ◌*◌, ◌/◌, Bool, true, false, not, ◌&&◌, ◌||◌, List, [], ◌∷◌, Bytes, codes,
  ltb, leb, ◌==◌, if◌then◌else◌, ◌=k◌, bytes_key, ◌≡◌, set,
}
use extremes.Segments.{segment_count}

abbrev pub minimal_block : ℕ
minimal_block = 1_048_576

abbrev pub compression_threshold : ℕ
compression_threshold = 10_000

-- `offset_` and `size_` of a `compress_task`; `block_num_` is its place in the list.
pub record Block : Type 0 where
  pub offset : ℕ
  pub size : ℕ

unfoldable pub make_block : ℕ → ℕ → ℕ → Block
make_block file_sz block_sz f =
    let left = file_sz - block_sz * f in
    record { offset = block_sz * f; size = if ltb block_sz left then block_sz else left }

unfoldable pub block_loop : ℕ → ℕ → ℕ → ℕ → List Block
unfolding make_block
block_loop file_sz block_sz f zero = []
block_loop file_sz block_sz f (suc left) =
    make_block file_sz block_sz f ∷ block_loop file_sz block_sz (f + 1) left

-- `block_sz` by the size of the file and the number of threads for the processor.
unfoldable pub block_size : ℕ → ℕ → ℕ
block_size file_sz capability =
    let estimate = file_sz / minimal_block in
    file_sz / (if ltb capability estimate then capability else estimate)

-- `file_compressor::operator()`
unfoldable pub file_compressor : ℕ → ℕ → List Block
unfolding block_size block_loop segment_count
file_compressor file_sz capability =
    let block_sz = block_size file_sz capability in
    block_loop file_sz block_sz 0 (segment_count file_sz block_sz)

-- The extensions that are not compressed.
abbrev pub packed : List Bytes
packed =
    codes ".gz"
    ∷ codes ".zip"
    ∷ codes ".tgz"
    ∷ codes ".bz2"
    ∷ codes ".7z"
    ∷ codes ".bam"
    ∷ codes ".idx"
    ∷ codes ".png"
    ∷ codes ".gif"
    ∷ codes ".jpg"
    ∷ codes ".jpeg"
    ∷ codes ".htm"
    ∷ codes ".html"
    ∷ []

abbrev pub is_one_of : Bytes → List Bytes → Bool
is_one_of ext [] = false
is_one_of ext (e ∷ es) = ext =k e || is_one_of ext es

-- `magic[i]==v`, where `char` is signed: a byte from 128 up is a negative number.
unfoldable pub char_is : ℕ → ℕ → Bool
char_is byte v = ltb byte 128 && byte == v

-- `should_compress`, with the extension, the size and the first four bytes of the file.
unfoldable pub should_compress : Bytes → ℕ → ℕ → ℕ → ℕ → ℕ → Bool
unfolding char_is
should_compress ext sz m0 m1 m2 m3 =
    if is_one_of ext packed
    then false
    else if leb sz compression_threshold || leb sz minimal_block
    then false
    else if char_is m0 0x1f && char_is m1 0x8b && char_is m2 0x8 && char_is m3 0x8
    then false
    else true
