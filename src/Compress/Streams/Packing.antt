-- ===== src/Compress/Streams/Packing.antt =====
-- es3/compressor.cpp, `do_compress`: each block becomes a gzip member of its own.
use extremes.Base.{
  ℕ, zero, suc, ◌+◌, ◌-◌, ◌*◌, ◌≤◌, ◌<◌, ◌≡◌, ◌≢◌, refl, sym, ap, subst, ◌∙◌, false, List, [], ◌∷◌,
  ◌++◌, Bytes, arith, ◌==◌, length, length-append, length-take, length-drop, take, drop, min,
}
use mathlib.Core.List.{append_assoc, append-nil}
use extremes.Compress.{Block}
use extremes.Compress.Zlib.{Zlib, Deflates, z_stream_end, finish}
use extremes.Compress.Streams.{
  Ending, reached, mebibyte, is_empty, Temp, emit, new_temp, read_some, deflate_loop, finish_block,
  read_loop, do_compress,
}
use extremes.Upload.Chunks.{take_all}
use extremes.Compress.Streams.Deflating.{
  IsCounted, emit-IsCounted, Holds, deflate_loop-Holds, filled,
}

-- The epilogue of a stream fits into the output buffer, as the comment of the source says.
abbrev pub EpilogueFits :
    (zl : Zlib) {Member : Bytes → Bytes → Type 0} → Deflates zl Member → Type 0
EpilogueFits zl d =
    (z : zl.Deflater) (raw out : Bytes)
    → d.Deflating z raw out
    → (zl.deflate finish z [] mebibyte).code ≡ z_stream_end

take_split {ℓ} :
    {A : Type ℓ} (m n : ℕ) (xs : List A) → take m xs ++ take n (drop m xs) ≡ take (m + n) xs
take_split zero n xs = ap (λ k. take k xs) (omega arith)
take_split (suc m) zero [] = sym (take_all (suc m + 0) [] (omega arith))
take_split (suc m) (suc n) [] = sym (take_all (suc m + suc n) [] (omega arith))
take_split (suc m) n (x ∷ xs) =
    let more : suc (m + n) ≡ suc m + n = omega arith in
    ap (◌∷◌ x) (take_split m n xs) ∙ ap (λ k. take k (x ∷ xs)) more

take-rest :
    (m left : ℕ) (src : Bytes)
    → m ≤ left
    → length (take m src) ≡ m
    → take m src ++ take (left - length (take m src)) (drop (length (take m src)) src)
      ≡ take left src
take-rest m left src fits size =
    let sum : m + (left - m) ≡ left = omega (arith, fits) in
    rw size (take_split m (left - m) src ∙ ap (λ k. take k src) sum)

not_empty : (s : Bytes) → 0 < length s → is_empty s ≡ false
not_empty [] h = absurd (omega (arith, h))
not_empty (c ∷ s) h = refl

module _ (zl : Zlib) {Member : Bytes → Bytes → Type 0} (d : Deflates zl Member) where
  open zl use {Deflater, deflate, deflate_init}
  open d use {Deflating, deflate_bound}

  read_loop-next :
      (cuts : ℕ → ℕ) (turns fuel : ℕ) (z : Deflater) (src : Bytes) (left : ℕ) (t : Temp)
      (s : Deflater × Temp)
      → left ≢ 0
      → is_empty (read_some (cuts left) (min (2 * mebibyte) left) src) ≡ false
      → deflate_loop zl turns z (read_some (cuts left) (min (2 * mebibyte) left) src) t ≡ reached s
      → read_loop zl cuts turns (suc fuel) z src left t
        ≡ read_loop zl cuts turns fuel s.0
            (drop (length (read_some (cuts left) (min (2 * mebibyte) left) src)) src)
            (left - length (read_some (cuts left) (min (2 * mebibyte) left) src))
            s.1
  unfolding read_loop
  read_loop-next cuts turns fuel z src left t s some more e =
      let going : (left == 0) ≡ false = ground arith in rw (going, more, e) refl

  read_loop-Holds :
      (cuts : ℕ → ℕ) (turns fuel : ℕ) (z : Deflater) (raw src : Bytes) (left : ℕ) (t : Temp)
      → Deflating z raw t.content
      → IsCounted t
      → left ≤ fuel
      → left ≤ length src
      → deflate_bound (length raw + left) < turns
      → Holds zl d (read_loop zl cuts turns fuel z src left t) (raw ++ take left src)
  unfolding read_loop
  read_loop-Holds cuts turns zero z raw src left t h counted few long enough =
      let none : left ≡ 0 = omega (arith, few) in
      let same : raw ++ take left src ≡ raw = rw none (append-nil raw) in
      record {
        z = z;
        t = t;
        reaches = rw none refl;
        deflating = subst (λ s. Deflating z s t.content) (sym same) h;
        counted = counted;
      }
  read_loop-Holds cuts turns (suc fuel) z raw src zero t h counted few long enough = record {
    z = z;
    t = t;
    reaches = refl;
    deflating = subst (λ s. Deflating z s t.content) (sym (append-nil raw)) h;
    counted = counted;
  }
  read_loop-Holds cuts turns (suc fuel) z raw src (suc l) t h counted few long enough =
      let left = suc l in
      let m = min (min (2 * mebibyte) left) (suc (cuts left)) in
      let chunk = take m src in
      let size : length chunk ≡ m = length-take m src ∙ omega (arith, long) in
      let fits : m ≤ left = omega arith in
      let some : is_empty chunk ≡ false = not_empty chunk (omega (arith, size)) in
      let most =
        d.bound_mono (length (raw ++ chunk)) (length raw + left)
          (omega (arith, length-append raw chunk, size)) in
      let fed =
        deflate_loop-Holds zl d turns z raw chunk t h counted (filled zl d chunk some)
          (omega (arith, most, enough)) in
      let room : length (raw ++ chunk) + (left - length chunk) ≡ length raw + left =
        omega (arith, length-append raw chunk, size) in
      let rest =
        read_loop-Holds cuts turns fuel fed.z (raw ++ chunk) (drop (length chunk) src)
          (left - length chunk) fed.t fed.deflating fed.counted (omega (arith, few, size))
          (omega (arith, length-drop (length chunk) src, long))
          (omega (arith, enough, ap deflate_bound room)) in
      let whole : (raw ++ chunk) ++ take (left - length chunk) (drop (length chunk) src)
          ≡ raw ++ take left src =
        append_assoc raw chunk _ ∙ ap (◌++◌ raw) (take-rest m left src fits size) in
      subst (λ e. Holds zl d e (raw ++ take left src))
        (sym (
          read_loop-next cuts turns fuel z src left t (fed.z, fed.t) (omega arith) some
            fed.reaches))
        (subst
          (λ s.
            Holds zl d
              (read_loop zl cuts turns fuel fed.z (drop (length chunk) src) (left - length chunk)
                fed.t)
              s)
          whole rest)

  finish_block-ends :
      (z : Deflater) (t : Temp)
      → (deflate finish z [] mebibyte).code ≡ z_stream_end
      → finish_block zl z t ≡ reached (emit (deflate finish z [] mebibyte).output t)
  unfolding finish_block
  finish_block-ends z t e = ground arith

  -- What a block of a file becomes.
  pub record Packs (e : Ending Temp) (raw : Bytes) : Type 0 where
    pub t : Temp
    pub reaches : e ≡ reached t
    pub member : Member t.content raw
    pub counted : IsCounted t

  -- A block is compressed to a gzip member of its bytes, however short the reads are.
  pub do_compress-Packs :
      (cuts : ℕ → ℕ) (turns : ℕ) (content : Bytes) (b : Block)
      → EpilogueFits zl d
      → b.offset + b.size ≤ length content
      → deflate_bound b.size < turns
      → Packs (do_compress zl cuts turns content b) (take b.size (drop b.offset content))
  unfolding do_compress
  do_compress-Packs cuts turns content b fits inside enough =
      let none : 0 + b.size ≡ b.size = omega arith in
      let held =
        read_loop-Holds cuts turns b.size deflate_init [] (drop b.offset content) b.size new_temp
          d.begun refl (omega arith) (omega (arith, length-drop b.offset content, inside))
          (omega (arith, enough, ap deflate_bound none)) in
      let last = fits held.z _ held.t.content held.deflating in
      let c = deflate finish held.z [] mebibyte in
      record {
        t = emit c.output held.t;
        reaches = rw held.reaches (finish_block-ends held.z held.t last);
        member = d.ended held.z _ held.t.content mebibyte held.deflating last;
        counted = emit-IsCounted c.output held.t held.counted;
      }
