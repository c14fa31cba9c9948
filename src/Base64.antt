-- ===== src/Base64.antt =====
-- es3/base64.cpp. A byte is a number below 256; the shifts and masks of the source are the
-- divisions and remainders by powers of two that they stand for.
pub mod Alphabet
pub mod RoundTrip
use extremes.Base.{
  ℕ, ◌+◌, ◌*◌, ◌/◌, ◌%◌, [], ◌∷◌, ◌++◌, Bytes, ◌&&◌, not, ◌==◌, if◌then◌else◌, take,
}
use Alphabet.{lookup_char, position, is_base64}

-- `encodeLookup[(temp & 0x00FC0000) >> 18]` and its three companions, on the 24-bit `temp`.
sextet0 : ℕ → ℕ
sextet0 temp = lookup_char (temp / 0x40000 % 64)

sextet1 : ℕ → ℕ
sextet1 temp = lookup_char (temp / 0x1000 % 64)

sextet2 : ℕ → ℕ
sextet2 temp = lookup_char (temp / 64 % 64)

sextet3 : ℕ → ℕ
sextet3 temp = lookup_char (temp % 64)

abbrev pad_character : ℕ
pad_character = b'='

-- `base64Encode`: groups of three bytes, then the one or two that are left.
unfoldable pub base64_encode : Bytes → Bytes
unfolding sextet0 sextet1 sextet2 sextet3
base64_encode [] = []
base64_encode (a ∷ []) =
    let temp = a * 0x10000 in sextet0 temp ∷ sextet1 temp ∷ pad_character ∷ pad_character ∷ []
base64_encode (a ∷ b ∷ []) =
    let temp = a * 0x10000 + b * 0x100 in
    sextet0 temp ∷ sextet1 temp ∷ sextet2 temp ∷ pad_character ∷ []
base64_encode (a ∷ b ∷ c ∷ rest) =
    let temp = a * 0x10000 + b * 0x100 + c in
    sextet0 temp ∷ sextet1 temp ∷ sextet2 temp ∷ sextet3 temp ∷ base64_encode rest

-- `char_array_3` of four table positions, each an `unsigned char`.
decode_quad : ℕ → ℕ → ℕ → ℕ → Bytes
decode_quad p q r s =
    ((p * 4 + q / 16 % 4) % 256)
    ∷ ((q % 16 * 16 + r / 4 % 16) % 256)
    ∷ ((r % 4 * 64 + s) % 256)
    ∷ []

-- The block after the loop: `char_array_4` holds the `i` characters that were read and zeros,
-- and `i - 1` bytes are kept.
flush : Bytes → Bytes
unfolding decode_quad
flush [] = []
flush (p ∷ []) = []
flush (p ∷ q ∷ []) = take 1 (decode_quad (position p) (position q) (position 0) (position 0))
flush (p ∷ q ∷ r ∷ rest) = take 2 (decode_quad (position p) (position q) (position r) (position 0))

-- The body of the loop: the character joins `held`, which is `char_array_4[0 .. i)`; a fourth one
-- turns the array into three bytes of output and empties it.
push : Bytes → ℕ → Bytes × Bytes
unfolding decode_quad
push (p ∷ q ∷ r ∷ []) c = ([], decode_quad (position p) (position q) (position r) (position c))
push held c = (held ++ c ∷ [], [])

-- The loop of `base64_decode`, which stops before the first character that it does not accept.
decode_loop : Bytes → Bytes → Bytes
unfolding flush push
decode_loop held [] = flush held
decode_loop held (c ∷ rest) =
    let (held', out) = push held c in
    if not (c == pad_character) && is_base64 c then out ++ decode_loop held' rest else flush held

unfoldable pub base64_decode : Bytes → Bytes
unfolding decode_loop
base64_decode text = decode_loop [] text
