-- ===== src/Compress/Streams.antt =====
-- es3/compressor.cpp: the loops of `compress_task` and `file_decompressor` over zlib.
pub mod Deflating
pub mod Packing
pub mod Members
pub mod Unpacking
pub mod RoundTrip
use extremes.Base.{
  ℕ, zero, suc, ◌+◌, ◌-◌, ◌*◌, Bool, true, false, List, [], ◌∷◌, ◌++◌, Bytes, ◌==◌, if◌then◌else◌,
  length, take, drop, min,
}
use extremes.Compress.{Block, file_compressor}
use extremes.Compress.Zlib.{
  Zlib, Code, z_ok, z_stream_end, z_need_dict, z_error, Flush, no_flush, finish, Called,
}

-- How a loop ends: with a result, by `err(errFatal)`, by a failed assertion, or not within its fuel.
pub data Ending {ℓ} (A : Type ℓ) : Type ℓ where
  reached : A → Ending A
  fatal aborted unfinished : Ending A

infixl 5 ◌>>=◌
abbrev pub ◌>>=◌ {ℓ κ} : {A : Type ℓ} {B : Type κ} → Ending A → (A → Ending B) → Ending B
reached a >>= f = f a
fatal >>= f = fatal
aborted >>= f = aborted
unfinished >>= f = unfinished

abbrev pub mebibyte : ℕ
mebibyte = 1_048_576

abbrev pub is_empty : Bytes → Bool
is_empty [] = true
is_empty (c ∷ s) = false

-- A temporary file, and the count of the bytes that were given to `write`, which takes them all.
pub record Temp : Type 0 where
  pub content : Bytes
  pub consumed : ℕ

abbrev pub emit : Bytes → Temp → Temp
emit bytes t = record { content = t.content ++ bytes; consumed = t.consumed + length bytes }

abbrev pub new_temp : Temp
new_temp = record { content = []; consumed = 0 }

-- `read` of at most `n` bytes: one byte at least, unless the file has no more, and at most `cut + 1`.
abbrev pub read_some : ℕ → ℕ → Bytes → Bytes
read_some cut n src = take (min n (suc cut)) src

module _ (zl : Zlib) where
  open zl use {Deflater, Inflater, deflate_init, deflate, inflate_init, inflate}

  -- `do ... while(stream.avail_in!=0)`
  unfoldable pub deflate_loop : ℕ → Deflater → Bytes → Temp → Ending (Deflater × Temp)
  deflate_loop zero z input t = unfinished
  deflate_loop (suc fuel) z input t =
      let c = deflate no_flush z input mebibyte in
      let again = deflate_loop fuel c.next c.rest (emit c.output t) in
      elim c.code [
        | z_ok ↦ if is_empty c.rest then reached (c.next, emit c.output t) else again
        | z_stream_end ↦ fatal
        | z_need_dict ↦ fatal
        | z_error ↦ fatal
      ]

  -- The epilogue.
  unfoldable pub finish_block : Deflater → Temp → Ending Temp
  finish_block z t =
      let c = deflate finish z [] mebibyte in
      elim c.code [
        | z_ok ↦ fatal
        | z_stream_end ↦ reached (emit c.output t)
        | z_need_dict ↦ fatal
        | z_error ↦ fatal
      ]

  -- `while(raw_consumed<size_)`, where `left` is `size_-raw_consumed`, `src` is what the file has from
  -- here on, and `cuts` is how the reads fall short. Its fuel counts the reads, `turns` the calls of
  -- `deflate` for one of them.
  unfoldable pub read_loop :
      (ℕ → ℕ) → ℕ → ℕ → Deflater → Bytes → ℕ → Temp → Ending (Deflater × Temp)
  unfolding deflate_loop
  read_loop cuts turns zero z src left t = if left == 0 then reached (z, t) else unfinished
  read_loop cuts turns (suc fuel) z src left t =
      let chunk = read_some (cuts left) (min (2 * mebibyte) left) src in
      let later = deflate_loop turns z chunk t >>= λ s.
      read_loop cuts turns fuel s.0 (drop (length chunk) src) (left - length chunk) s.1 in
      if left == 0 then reached (z, t) else if is_empty chunk then aborted else later

  -- `do_compress` of a block of a file with this content.
  unfoldable pub do_compress : (ℕ → ℕ) → ℕ → Bytes → Block → Ending Temp
  unfolding read_loop finish_block
  do_compress cuts turns content b =
      read_loop cuts turns b.size deflate_init (drop b.offset content) b.size new_temp >>= λ s.
      finish_block s.0 s.1

  unfoldable pub compress_blocks : (ℕ → ℕ) → ℕ → Bytes → List Block → Ending (List Temp)
  unfolding do_compress
  compress_blocks cuts turns content [] = reached []
  compress_blocks cuts turns content (b ∷ bs) = do_compress cuts turns content b >>= λ t.
      compress_blocks cuts turns content bs >>= λ ts. reached (t ∷ ts)

  -- All tasks that `file_compressor` schedules for a file: `files_` and `sizes_` at the end.
  unfoldable pub compress_file : (ℕ → ℕ) → ℕ → Bytes → ℕ → Ending (List Temp)
  unfolding file_compressor compress_blocks
  compress_file cuts turns content capability =
      compress_blocks cuts turns content (file_compressor (length content) capability)

  -- `while (stream.avail_in>0)`; the second part of the result is what was written.
  unfoldable pub inflate_loop : ℕ → Inflater → Bytes → Temp → Ending (Inflater × Temp)
  inflate_loop zero z [] t = reached (z, t)
  inflate_loop zero z (c ∷ input) t = unfinished
  inflate_loop (suc fuel) z [] t = reached (z, t)
  inflate_loop (suc fuel) z (c ∷ input) t =
      let r = inflate z (c ∷ input) (2 * mebibyte) in
      let again = λ (s : Inflater). inflate_loop fuel s r.rest (emit r.output t) in
      elim r.code [
        | z_ok ↦ again r.next
        | z_stream_end ↦ again inflate_init
        | z_need_dict ↦ again r.next
        | z_error ↦ fatal
      ]

  -- `while(true)` over the chunks of the source file.
  unfoldable pub decompress_loop : (ℕ → ℕ) → ℕ → ℕ → Inflater → Bytes → Temp → Ending Temp
  unfolding inflate_loop
  decompress_loop cuts turns zero z src t = if is_empty src then reached t else unfinished
  decompress_loop cuts turns (suc fuel) z src t =
      let chunk = read_some (cuts (length src)) mebibyte src in
      let later = inflate_loop turns z chunk t >>= λ s.
      decompress_loop cuts turns fuel s.0 (drop (length chunk) src) s.1 in
      if is_empty chunk then reached t else later

  -- `file_decompressor::operator()`: what replaces `result_`.
  unfoldable pub file_decompressor : (ℕ → ℕ) → ℕ → Bytes → Ending Bytes
  unfolding decompress_loop
  file_decompressor cuts turns source =
      decompress_loop cuts turns (length source) inflate_init source new_temp >>= λ t.
      reached t.content
