-- ===== src/Base64/RoundTrip.antt =====
-- The decoder undoes the encoder.
use extremes.Base.{ℕ, ◌+◌, ◌*◌, ◌/◌, ◌%◌, ◌<◌, ◌≡◌, refl, ap, ap₂, ◌∙◌, [], ◌∷◌, arith, Bytes, All}
use extremes.Base64.Alphabet.{lookup_char, lookup_char_lem}
use extremes.Base64.{base64_encode, base64_decode, decode_loop, pad_character}

abbrev pub IsByte : ℕ → Type 0
IsByte c = c < 256

-- Four characters of the table are one turn of the loop.
decode_loop-quad :
    (p q r s : ℕ) (rest : Bytes)
    → p < 64
    → q < 64
    → r < 64
    → s < 64
    → decode_loop [] (lookup_char p ∷ lookup_char q ∷ lookup_char r ∷ lookup_char s ∷ rest)
      ≡ ((p * 4 + q / 16 % 4) % 256)
        ∷ ((q % 16 * 16 + r / 4 % 16) % 256)
        ∷ ((r % 4 * 64 + s) % 256)
        ∷ decode_loop [] rest
unfolding decode_loop
decode_loop-quad p q r s rest hp hq hr hs =
    ground (
      arith,
      lookup_char_lem p hp,
      lookup_char_lem q hq,
      lookup_char_lem r hr,
      lookup_char_lem s hs,
    )

decode_loop-pair :
    (p q : ℕ)
    → p < 64
    → q < 64
    → decode_loop [] (lookup_char p ∷ lookup_char q ∷ pad_character ∷ pad_character ∷ [])
      ≡ ((p * 4 + q / 16 % 4) % 256) ∷ []
unfolding decode_loop
decode_loop-pair p q hp hq = ground (arith, lookup_char_lem p hp, lookup_char_lem q hq)

decode_loop-triple :
    (p q r : ℕ)
    → p < 64
    → q < 64
    → r < 64
    → decode_loop [] (lookup_char p ∷ lookup_char q ∷ lookup_char r ∷ pad_character ∷ [])
      ≡ ((p * 4 + q / 16 % 4) % 256) ∷ ((q % 16 * 16 + r / 4 % 16) % 256) ∷ []
unfolding decode_loop
decode_loop-triple p q r hp hq hr =
    ground (arith, lookup_char_lem p hp, lookup_char_lem q hq, lookup_char_lem r hr)

-- The three bytes of a 24-bit number, put together again from its four sextets.
byte0 :
    (t : ℕ) → t < 0x1000000 → (t / 0x40000 % 64 * 4 + t / 0x1000 % 64 / 16 % 4) % 256 ≡ t / 0x10000
byte0 t h = omega arith

byte1 : (t : ℕ) → (t / 0x1000 % 64 % 16 * 16 + t / 64 % 64 / 4 % 16) % 256 ≡ t / 256 % 256
byte1 t = omega arith

byte2 : (t : ℕ) → (t / 64 % 64 % 4 * 64 + t % 64) % 256 ≡ t % 256
byte2 t = omega arith

-- Decoding what the encoder wrote for a string of bytes gives that string back, at every length:
-- whole groups of three, and the one or two bytes that are left over with their padding.
pub decode-encode : (s : Bytes) → All IsByte s → base64_decode (base64_encode s) ≡ s
unfolding base64_encode base64_decode
decode-encode [] h = refl
decode-encode (a ∷ []) h =
    let t = a * 0x10000 in
    decode_loop-pair (t / 0x40000 % 64) (t / 0x1000 % 64) (omega arith) (omega arith)
    ∙ ap (λ x. x ∷ []) (byte0 t (omega arith) ∙ omega arith)
decode-encode (a ∷ b ∷ []) h =
    let t = a * 0x10000 + b * 0x100 in
    decode_loop-triple (t / 0x40000 % 64) (t / 0x1000 % 64) (t / 64 % 64) (omega arith)
      (omega arith) (omega arith)
    ∙ ap₂ (λ x y. x ∷ y ∷ []) (byte0 t (omega arith) ∙ omega arith) (byte1 t ∙ omega arith)
decode-encode (a ∷ b ∷ c ∷ rest) h =
    let t = a * 0x10000 + b * 0x100 + c in
    decode_loop-quad (t / 0x40000 % 64) (t / 0x1000 % 64) (t / 64 % 64) (t % 64)
      (base64_encode rest) (omega arith) (omega arith) (omega arith) (omega arith)
    ∙ (λ i. (byte0 t (omega arith) i) ∷ (byte1 t i) ∷ (byte2 t i) ∷ decode-encode rest h.1.1.1 i)
    ∙ (λ i. (e0 i) ∷ (e1 i) ∷ (e2 i) ∷ rest)
  where
    e0 : (a * 0x10000 + b * 0x100 + c) / 0x10000 ≡ a
    e0 = omega arith

    e1 : (a * 0x10000 + b * 0x100 + c) / 256 % 256 ≡ b
    e1 = omega arith

    e2 : (a * 0x10000 + b * 0x100 + c) % 256 ≡ c
    e2 = omega arith
