-- ===== src/Charset/Sizes.antt =====
-- The sizes of the buffers that the converters of utf.c allocate.
use sklaffkom.Base.{ℕ, ◌+◌, ◌*◌, ◌≤◌, [], ◌∷◌, arith, Bytes, length}
use sklaffkom.Charset.{encode, sf7_to_utf8_dup, utf8_to_sf7_dup}

length-encode : (s : ℕ) (d : Bytes) → length (encode s d) ≤ length d + 2
length-encode s d = ground arith

length-sf7_to_utf8_dup : (s : Bytes) → length (sf7_to_utf8_dup s) ≤ length s * 2
unfolding sf7_to_utf8_dup
length-sf7_to_utf8_dup [] = omega arith
length-sf7_to_utf8_dup (c ∷ s) =
    omega (arith, length-encode c (sf7_to_utf8_dup s), length-sf7_to_utf8_dup s)

length-utf8_to_sf7_dup : (s : Bytes) → length (utf8_to_sf7_dup s) ≤ length s
unfolding utf8_to_sf7_dup
length-utf8_to_sf7_dup [] = omega arith
length-utf8_to_sf7_dup (a ∷ []) = omega arith
length-utf8_to_sf7_dup (a ∷ b ∷ s) =
    ground (arith, length-utf8_to_sf7_dup s, length-utf8_to_sf7_dup (b ∷ s))

-- What the converters write, with its final NUL, fits the buffer that they allocate: two bytes for
-- each byte of the SF7 string and one more, and the length of the UTF-8 string and one more.
pub converted-fits :
    (s : Bytes)
    → (length (sf7_to_utf8_dup s) + 1 ≤ length s * 2 + 1)
      × (length (utf8_to_sf7_dup s) + 1 ≤ length s + 1)
converted-fits s =
    (omega (arith, length-sf7_to_utf8_dup s), omega (arith, length-utf8_to_sf7_dup s))
