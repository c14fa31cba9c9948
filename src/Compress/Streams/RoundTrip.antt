-- ===== src/Compress/Streams/RoundTrip.antt =====
-- es3/compressor.cpp: a file that was compressed in blocks is unpacked to what it was.
use extremes.Base.{
  ℕ, ◌+◌, ◌≤◌, ◌<◌, ◌≡◌, refl, sym, ap, ◌∙◌, List, [], ◌∷◌, ◌++◌, Bytes, arith, length, take, drop,
  take-append-drop, map, All,
}
use extremes.Compress.{Block, file_compressor, minimal_block}
use extremes.Compress.Blocks.{Tiles, file_compressor-Tiles}
use extremes.Compress.Zlib.{Zlib, Deflates, Inflates}
use extremes.Compress.Streams.{
  Ending, reached, Temp, compress_blocks, compress_file, file_decompressor,
}
use extremes.Compress.Streams.Deflating.{IsCounted}
use extremes.Compress.Streams.Packing.{EpilogueFits, do_compress-Packs}
use extremes.Compress.Streams.Members.{Members, no_members, one_more}
use extremes.Compress.Streams.Unpacking.{file_decompressor-Members}
use extremes.Upload.Chunks.{flat, drop-drop, drop_all}

-- The parts of a scattered file, as an upload sends them.
abbrev pub joined : List Temp → Bytes
joined ts = flat (map (λ t. t.content) ts)

Tiles-le : (from to : ℕ) (bs : List Block) → Tiles from to bs → from ≤ to
Tiles-le from to [] h = omega (arith, h)
Tiles-le from to (b ∷ bs) (e, some, h) = omega (arith, e, Tiles-le (b.offset + b.size) to bs h)

module _ (zl : Zlib) {Member : Bytes → Bytes → Type 0} (d : Deflates zl Member)
    (fits : EpilogueFits zl d) (cuts : ℕ → ℕ) (turns : ℕ) (content : Bytes)
    (enough : d.deflate_bound (length content) < turns) where
  -- The blocks from `from` on become members that hold the rest of the file.
  record PacksAll (e : Ending (List Temp)) (raw : Bytes) : Type 0 where
    ts : List Temp
    reaches : e ≡ reached ts
    members : Members Member (joined ts) raw
    counted : All IsCounted ts

  compress_blocks-PacksAll :
      (from : ℕ) (bs : List Block)
      → Tiles from (length content) bs
      → PacksAll (compress_blocks zl cuts turns content bs) (drop from content)
  unfolding compress_blocks
  compress_blocks-PacksAll from [] h = record {
    ts = [];
    reaches = refl;
    members = no_members [] _ refl (drop_all from content (omega (arith, h)));
    counted = tt;
  }
  compress_blocks-PacksAll from (b ∷ bs) (e, some, h) =
      let inside = Tiles-le (b.offset + b.size) (length content) bs h in
      let most = d.bound_mono b.size (length content) (omega (arith, inside)) in
      let one =
        do_compress-Packs zl d cuts turns content b fits inside (omega (arith, most, enough)) in
      let rest = compress_blocks-PacksAll (b.offset + b.size) bs h in
      record {
        ts = one.t ∷ rest.ts;
        reaches = rw (one.reaches, rest.reaches) refl;
        members =
            one_more _ _ one.t.content (take b.size (drop b.offset content)) (joined rest.ts)
              (drop (b.offset + b.size) content) one.member rest.members refl
              (ap (λ k. drop k content) (sym e)
                ∙ sym (take-append-drop b.size (drop b.offset content))
                ∙ ap (◌++◌ (take b.size (drop b.offset content)))
                    (drop-drop b.size b.offset content));
        counted = (one.counted, rest.counted);
      }

  -- The blocks of a file of more than a mebibyte are all compressed, with their sizes, and their
  -- parts, joined in order and read back in whatever pieces, are unpacked to the file.
  pub compress_file-decompressed :
      (capability : ℕ) (reads : ℕ → ℕ)
      → Inflates zl Member
      → minimal_block < length content
      → 0 < capability
      → (ts : List Temp) × (compress_file zl cuts turns content capability ≡ reached ts)
        × All IsCounted ts
        × (file_decompressor zl reads (length (joined ts) + length content) (joined ts)
            ≡ reached content)
  unfolding compress_file
  compress_file-decompressed capability reads i large some =
      let all =
        compress_blocks-PacksAll 0 (file_compressor (length content) capability)
          (file_compressor-Tiles (length content) capability large some) in
      (
        all.ts,
        all.reaches,
        all.counted,
        file_decompressor-Members zl i reads (length (joined all.ts) + length content)
            (joined all.ts) content all.members (omega arith),
      )
