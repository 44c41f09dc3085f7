-- ===== src/Charset/RoundTrip.antt =====
-- The converters of utf.c, one after the other.
use sklaffkom.Base.{
  ℕ, ◌≡◌, refl, ap, [], ◌∷◌, arith, Bytes, false, ◌==◌, ◌∙◌, All, Bool, true, inl, inr, Bool-cases,
  ◌||◌,
}
use sklaffkom.Charset.{lead, encode, decode, sf7_to_utf8_dup, utf8_to_sf7_dup}

abbrev pub NoLead : ℕ → Type 0
NoLead s = (s == lead) ≡ false

-- is the byte one of the six that stand for a letter in SF7
abbrev pub is_letter : ℕ → Bool
is_letter s = s == b'}' || s == b'{' || s == b'|' || s == b']' || s == b'[' || s == b'\\'

abbrev pub NoLetter : ℕ → Type 0
NoLetter s = is_letter s ≡ false

utf8_to_sf7_dup-other :
    (s : ℕ) (rest : Bytes) → NoLead s → utf8_to_sf7_dup (s ∷ rest) ≡ s ∷ utf8_to_sf7_dup rest
unfolding utf8_to_sf7_dup
utf8_to_sf7_dup-other s [] h = refl
utf8_to_sf7_dup-other s (t ∷ rest) h = rw h

utf8_to_sf7_dup-encode :
    (s : ℕ) (rest : Bytes) → NoLead s → utf8_to_sf7_dup (encode s rest) ≡ s ∷ utf8_to_sf7_dup rest
unfolding utf8_to_sf7_dup
utf8_to_sf7_dup-encode s rest h = ground (arith, utf8_to_sf7_dup-other s rest h)

-- A string without the byte 0xC3, converted to UTF-8 and back, is the same string.
pub utf8_to_sf7_dup-sf7_to_utf8_dup :
    (s : Bytes) → All NoLead s → utf8_to_sf7_dup (sf7_to_utf8_dup s) ≡ s
unfolding sf7_to_utf8_dup
utf8_to_sf7_dup-sf7_to_utf8_dup [] h = unfold utf8_to_sf7_dup in refl
utf8_to_sf7_dup-sf7_to_utf8_dup (c ∷ s) h =
    rw (utf8_to_sf7_dup-encode c (sf7_to_utf8_dup s) h.0, utf8_to_sf7_dup-sf7_to_utf8_dup s h.1)
      refl

encode-other : (s : ℕ) (rest : Bytes) → NoLetter s → encode s rest ≡ s ∷ rest
encode-other s rest h = ground arith

decode-undone :
    (a b : ℕ) (letter other s : Bytes)
    → (a == lead) ≡ true
    → sf7_to_utf8_dup letter ≡ s
    → sf7_to_utf8_dup other ≡ a ∷ b ∷ s
    → sf7_to_utf8_dup (decode b letter other) ≡ a ∷ b ∷ s
unfolding sf7_to_utf8_dup
decode-undone a b letter other s h k l = ground arith

-- A string without the six bytes that stand for letters in SF7, converted to SF7 and back, is the
-- same string, whatever else it holds after the byte 0xC3.
pub sf7_to_utf8_dup-utf8_to_sf7_dup :
    (s : Bytes) → All NoLetter s → sf7_to_utf8_dup (utf8_to_sf7_dup s) ≡ s
unfolding sf7_to_utf8_dup utf8_to_sf7_dup
sf7_to_utf8_dup-utf8_to_sf7_dup [] h = refl
sf7_to_utf8_dup-utf8_to_sf7_dup (a ∷ []) h = encode-other a [] h.0
sf7_to_utf8_dup-utf8_to_sf7_dup (a ∷ b ∷ s) h =
    let other : sf7_to_utf8_dup (a ∷ utf8_to_sf7_dup (b ∷ s)) ≡ a ∷ b ∷ s =
      encode-other a _ h.0 ∙ ap (◌∷◌ a) (sf7_to_utf8_dup-utf8_to_sf7_dup (b ∷ s) h.1) in
    elim (Bool-cases (a == lead)) [
      | inl e ↦ rw e (
          decode-undone a b (utf8_to_sf7_dup s) (a ∷ utf8_to_sf7_dup (b ∷ s)) s e
            (sf7_to_utf8_dup-utf8_to_sf7_dup s h.1.1) other)
      | inr e ↦ rw e other
    ]
