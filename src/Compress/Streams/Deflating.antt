-- ===== src/Compress/Streams/Deflating.antt =====
-- es3/compressor.cpp, `do_compress`: the loop over `deflate` for one buffer of input.
use extremes.Base.{
  ℕ, zero, suc, ◌+◌, ◌<◌, ◌≡◌, ◌≢◌, refl, sym, ap, subst, ◌∙◌, inl, inr, true, false, [], ◌∷◌, ◌++◌,
  Bytes, arith, length, length-append, Bool-cases,
}
use mathlib.Core.List.{append_assoc, append-nil}
use extremes.Compress.Zlib.{Zlib, Deflates, z_ok, no_flush}
use extremes.Compress.Streams.{Ending, reached, mebibyte, is_empty, Temp, emit, deflate_loop}

-- The count of a temporary file is its length.
abbrev pub IsCounted : Temp → Type 0
IsCounted t = t.consumed ≡ length t.content

pub emit-IsCounted : (bytes : Bytes) (t : Temp) → IsCounted t → IsCounted (emit bytes t)
emit-IsCounted bytes t h = omega (arith, length-append t.content bytes, h)

module _ (zl : Zlib) {Member : Bytes → Bytes → Type 0} (d : Deflates zl Member) where
  open zl use {Deflater, deflate, deflate_init}
  open d use {Deflating, deflate_bound}

  -- A loop reached a stream that has taken `raw`, and all that it put out is in the file.
  pub record Holds (e : Ending (Deflater × Temp)) (raw : Bytes) : Type 0 where
    pub z : Deflater
    pub t : Temp
    pub reaches : e ≡ reached (z, t)
    pub deflating : Deflating z raw t.content
    pub counted : IsCounted t

  deflate_loop-stops :
      (fuel : ℕ) (z : Deflater) (input : Bytes) (t : Temp)
      → (deflate no_flush z input mebibyte).code ≡ z_ok
      → (deflate no_flush z input mebibyte).rest ≡ []
      → deflate_loop zl (suc fuel) z input t
        ≡ reached (
          (deflate no_flush z input mebibyte).next,
          emit (deflate no_flush z input mebibyte).output t,
        )
  unfolding deflate_loop
  deflate_loop-stops fuel z input t e none = ground arith

  deflate_loop-again :
      (fuel : ℕ) (z : Deflater) (input : Bytes) (t : Temp)
      → (deflate no_flush z input mebibyte).code ≡ z_ok
      → is_empty (deflate no_flush z input mebibyte).rest ≡ false
      → deflate_loop zl (suc fuel) z input t
        ≡ deflate_loop zl fuel
            (deflate no_flush z input mebibyte).next
            (deflate no_flush z input mebibyte).rest
            (emit (deflate no_flush z input mebibyte).output t)
  unfolding deflate_loop
  deflate_loop-again fuel z input t e some = ground arith

  empty : (s : Bytes) → is_empty s ≡ true → s ≡ []
  empty [] h = refl
  empty (c ∷ s) h = cc

  pub filled : (s : Bytes) → is_empty s ≡ false → s ≢ []
  filled [] h = cc
  filled (c ∷ s) h = λ e. cc

  pub deflate_loop-Holds :
      (fuel : ℕ) (z : Deflater) (raw input : Bytes) (t : Temp)
      → Deflating z raw t.content
      → IsCounted t
      → input ≢ []
      → deflate_bound (length (raw ++ input)) < fuel + length t.content
      → Holds (deflate_loop zl fuel z input t) (raw ++ input)
  deflate_loop-Holds zero z raw input t h counted some enough =
      let most = d.within z raw t.content h in
      let more =
        d.bound_mono (length raw) (length (raw ++ input))
          (omega (arith, length-append raw input)) in
      absurd (omega (arith, most, more, enough))
  deflate_loop-Holds (suc fuel) z raw input t h counted some enough =
      let called = d.deflated z raw t.content input mebibyte h some (omega arith) in
      let (eaten, split, kept) = called.1 in
      let c = deflate no_flush z input mebibyte in
      elim (Bool-cases (is_empty c.rest)) [
        | inl none ↦
            let all : input ≡ eaten =
              split ∙ ap (◌++◌ eaten) (empty c.rest none) ∙ append-nil eaten in
            record {
              z = c.next;
              t = emit c.output t;
              reaches = deflate_loop-stops fuel z input t called.0 (empty c.rest none);
              deflating =
                  subst (λ s. Deflating c.next (raw ++ s) (t.content ++ c.output)) (sym all) kept;
              counted = emit-IsCounted c.output t counted;
            }
        | inr more ↦
            let full : length c.output ≡ mebibyte = elim called.2 [
              | inl none ↦ absurd (filled c.rest more none)
              | inr full ↦ full
            ] in
            let whole : (raw ++ eaten) ++ c.rest ≡ raw ++ input =
              append_assoc raw eaten c.rest ∙ ap (◌++◌ raw) (sym split) in
            let rest =
              deflate_loop-Holds fuel c.next (raw ++ eaten) c.rest (emit c.output t) kept
                (emit-IsCounted c.output t counted) (filled c.rest more)
                (omega (
                  arith,
                  enough,
                  full,
                  length-append t.content c.output,
                  ap (λ (s : Bytes). deflate_bound (length s)) whole,
                )) in
            subst (λ e. Holds e (raw ++ input))
              (sym (deflate_loop-again fuel z input t called.0 more))
              (subst (λ s. Holds (deflate_loop zl fuel c.next c.rest (emit c.output t)) s) whole
                rest)
      ]
