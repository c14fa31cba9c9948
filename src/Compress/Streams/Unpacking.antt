-- ===== src/Compress/Streams/Unpacking.antt =====
-- es3/compressor.cpp, `file_decompressor`: its loops, and the file that they write.
use extremes.Base.{
  ℕ, zero, suc, ◌+◌, ◌-◌, ◌≤◌, ◌≡◌, refl, sym, ap, subst, ◌∙◌, inl, inr, false, [], ◌∷◌, ◌++◌,
  Bytes, arith, length, length-append, length-take, length-drop, take, drop, take-append-drop, min,
}
use mathlib.Core.List.{append_assoc, append-nil}
use extremes.Compress.Zlib.{Zlib, Inflates}
use extremes.Upload.Chunks.{drop-min}
use extremes.Compress.Streams.{
  Ending, reached, mebibyte, is_empty, Temp, emit, new_temp, read_some, inflate_loop,
  decompress_loop, file_decompressor,
}
use extremes.Compress.Streams.Members.{Members, Awaits, Awaits-begin, Inside-Advances}

module _ (zl : Zlib) {Member : Bytes → Bytes → Type 0} (d : Inflates zl Member) where
  open zl use {Inflater, inflate, inflate_init}

  -- A loop wrote `emitted` behind what the file held, and its stream awaits the rest of `w`.
  record Takes (e : Ending (Inflater × Temp)) (t : Temp) (later w : Bytes) : Type 0 where
    next : Inflater
    t' : Temp
    emitted : Bytes
    left : Bytes
    reaches : e ≡ reached (next, t')
    content : t'.content ≡ t.content ++ emitted
    output : w ≡ emitted ++ left
    awaits : Awaits zl d next later left

  Takes-none :
      (z : Inflater) (t : Temp) (later w : Bytes)
      → Awaits zl d z later w
      → Takes (reached (z, t)) t later w
  Takes-none z t later w a = record {
    next = z;
    t' = t;
    emitted = [];
    left = w;
    reaches = refl;
    content = sym (append-nil t.content);
    output = refl;
    awaits = a;
  }

  Takes-more :
      {e : Ending (Inflater × Temp)} {t : Temp} {later w : Bytes} (emitted left : Bytes)
      → w ≡ emitted ++ left
      → Takes e (emit emitted t) later left
      → Takes e t later w
  Takes-more {t} emitted left h r = record {
    next = r.next;
    t' = r.t';
    emitted = emitted ++ r.emitted;
    left = r.left;
    reaches = r.reaches;
    content = r.content ∙ append_assoc t.content emitted r.emitted;
    output = h ∙ ap (◌++◌ emitted) r.output ∙ sym (append_assoc emitted r.emitted r.left);
    awaits = r.awaits;
  }

  inflate_loop-Takes :
      (fuel : ℕ) (z : Inflater) (input later w : Bytes) (t : Temp)
      → Awaits zl d z (input ++ later) w
      → length input + length w ≤ fuel
      → Takes (inflate_loop zl fuel z input t) t later w
  unfolding inflate_loop Awaits
  inflate_loop-Takes zero z [] later w t a enough = Takes-none z t later w a
  inflate_loop-Takes zero z (c ∷ input) later w t a enough = absurd (omega (arith, enough))
  inflate_loop-Takes (suc fuel) z [] later w t a enough = Takes-none z t later w a
  inflate_loop-Takes (suc fuel) z (c ∷ input) later w t (inl ended) enough = cc (ended.0)
  inflate_loop-Takes (suc fuel) z (c ∷ input) later w t (inr inside) enough =
      let a = Inside-Advances zl d z c input later w inside in
      let rest =
        inflate_loop-Takes fuel a.next a.rest later a.left (emit a.emitted t) a.awaits
          (omega (arith, enough, a.shorter)) in
      subst (λ e. Takes e t later w) (sym (a.steps fuel t))
        (Takes-more a.emitted a.left a.output rest)

  rest-chunk : (m : ℕ) (src : Bytes) → take m src ++ drop (length (take m src)) src ≡ src
  rest-chunk m src =
      ap (λ k. take m src ++ drop k src) (length-take m src)
      ∙ ap (◌++◌ (take m src)) (drop-min m src)
      ∙ take-append-drop m src

  -- What the source file so far has come to.
  pub record Unpacks (e : Ending Temp) (t : Temp) (cut w : Bytes) : Type 0 where
    pub t' : Temp
    pub emitted : Bytes
    pub left : Bytes
    pub reaches : e ≡ reached t'
    pub content : t'.content ≡ t.content ++ emitted
    pub output : w ≡ emitted ++ left
    pub whole : cut ≡ [] → left ≡ []

  nothing_left : (z : Inflater) (s w : Bytes) → Awaits zl d z s w → s ≡ [] → w ≡ []
  unfolding Awaits
  nothing_left z s w (inl ended) h = ended.1
  nothing_left z s w (inr i) h =
      absurd (i.unfinished_ (empty_front i.more i.after (sym i.input ∙ h)))
    where
      empty_front : (a b : Bytes) → a ++ b ≡ [] → a ≡ []
      empty_front [] b e = refl
      empty_front (x ∷ a) b e = cc

  Unpacks-none :
      (z : Inflater) (t : Temp) (cut w : Bytes) → Awaits zl d z cut w → Unpacks (reached t) t cut w
  Unpacks-none z t cut w a = record {
    t' = t;
    emitted = [];
    left = w;
    reaches = refl;
    content = sym (append-nil t.content);
    output = refl;
    whole = nothing_left z cut w a;
  }

  Unpacks-more :
      {e e' : Ending Temp} {t : Temp} {cut later w : Bytes} {f : Ending (Inflater × Temp)}
      (r : Takes f t later w)
      → e' ≡ e
      → Unpacks e r.t' cut r.left
      → Unpacks e' t cut w
  Unpacks-more {t} r h u = record {
    t' = u.t';
    emitted = r.emitted ++ u.emitted;
    left = u.left;
    reaches = h ∙ u.reaches;
    content =
        u.content ∙ ap (λ s. s ++ u.emitted) r.content ∙ append_assoc t.content r.emitted u.emitted;
    output =
        r.output ∙ ap (◌++◌ r.emitted) u.output ∙ sym (append_assoc r.emitted u.emitted u.left);
    whole = u.whole;
  }

  decompress_loop-next :
      (cuts : ℕ → ℕ) (turns fuel : ℕ) (z : Inflater) (c : ℕ) (src : Bytes) (t : Temp)
      (s : Inflater × Temp)
      → inflate_loop zl turns z (read_some (cuts (length (c ∷ src))) mebibyte (c ∷ src)) t
        ≡ reached s
      → decompress_loop zl cuts turns (suc fuel) z (c ∷ src) t
        ≡ decompress_loop zl cuts turns fuel s.0
            (drop (length (read_some (cuts (length (c ∷ src))) mebibyte (c ∷ src))) (c ∷ src))
            s.1
  unfolding decompress_loop
  decompress_loop-next cuts turns fuel z c src t s e =
      let m = min mebibyte (suc (cuts (suc (length src)))) in
      let size : m ≡ suc (m - 1) = omega arith in
      let some : is_empty (take m (c ∷ src)) ≡ false = rw size refl in rw (some, e) refl

  decompress_loop-Unpacks :
      (cuts : ℕ → ℕ) (turns fuel : ℕ) (z : Inflater) (src cut w : Bytes) (t : Temp)
      → Awaits zl d z (src ++ cut) w
      → length src ≤ fuel
      → length src + length w ≤ turns
      → Unpacks (decompress_loop zl cuts turns fuel z src t) t cut w
  unfolding decompress_loop
  decompress_loop-Unpacks cuts turns zero z [] cut w t a few enough = Unpacks-none z t cut w a
  decompress_loop-Unpacks cuts turns zero z (c ∷ src) cut w t a few enough =
      absurd (omega (arith, few))
  decompress_loop-Unpacks cuts turns (suc fuel) z [] cut w t a few enough =
      let m = min mebibyte (suc (cuts 0)) in
      let size : m ≡ suc (m - 1) = omega arith in rw size (Unpacks-none z t cut w a)
  decompress_loop-Unpacks cuts turns (suc fuel) z (c ∷ src) cut w t a few enough =
      let m = min mebibyte (suc (cuts (length (c ∷ src)))) in
      let chunk = take m (c ∷ src) in
      let rest = drop (length chunk) (c ∷ src) in
      let split : chunk ++ rest ≡ c ∷ src = rest-chunk m (c ∷ src) in
      let size : length chunk ≡ min m (suc (length src)) = length-take m (c ∷ src) in
      let behind : chunk ++ (rest ++ cut) ≡ (c ∷ src) ++ cut =
        sym (append_assoc chunk rest cut) ∙ ap (λ s. s ++ cut) split in
      let taken =
        inflate_loop-Takes turns z chunk (rest ++ cut) w t
          (subst (λ s. Awaits zl d z s w) (sym behind) a) (omega (arith, enough, size)) in
      let shorter : length rest ≡ suc (length src) - length chunk =
        length-drop (length chunk) (c ∷ src) in
      let sum : length w ≡ length taken.emitted + length taken.left =
        ap length taken.output ∙ length-append taken.emitted taken.left in
      Unpacks-more taken
        (decompress_loop-next cuts turns fuel z c src t (taken.next, taken.t') taken.reaches)
        (decompress_loop-Unpacks cuts turns fuel taken.next rest cut taken.left taken.t'
          taken.awaits (omega (arith, few, shorter, size)) (omega (arith, enough, shorter, sum)))

  module _ (cuts : ℕ → ℕ) (turns : ℕ) where
    -- Whole members are unpacked, however the reads cut them: the contents of all of them, in order.
    pub file_decompressor-Members :
        (packed raw : Bytes)
        → Members Member packed raw
        → length packed + length raw ≤ turns
        → file_decompressor zl cuts turns packed ≡ reached raw
    unfolding file_decompressor
    file_decompressor-Members packed raw ms enough =
        let u =
          decompress_loop-Unpacks cuts turns (length packed) inflate_init packed [] raw new_temp
            (Awaits-begin zl d (packed ++ []) raw
              (subst (λ s. Members Member s raw) (sym (append-nil packed)) ms))
            (omega arith) enough in
        let all : raw ≡ u.emitted =
          u.output ∙ ap (◌++◌ u.emitted) (u.whole refl) ∙ append-nil u.emitted in
        rw u.reaches (ap reached (u.content ∙ sym all))

    -- A download that was cut off anywhere replaces the file all the same, with the beginning of its
    -- contents.
    pub file_decompressor-cut_off :
        (packed cut raw : Bytes)
        → Members Member (packed ++ cut) raw
        → length packed + length raw ≤ turns
        → (front : Bytes) × (back : Bytes) × (raw ≡ front ++ back)
          × (file_decompressor zl cuts turns packed ≡ reached front)
    unfolding file_decompressor
    file_decompressor-cut_off packed cut raw ms enough =
        let u =
          decompress_loop-Unpacks cuts turns (length packed) inflate_init packed cut raw new_temp
            (Awaits-begin zl d (packed ++ cut) raw ms) (omega arith) enough in
        (u.emitted, u.left, u.output, rw u.reaches (ap reached u.content))
