-- ===== src/Mail/Transfer/Latin.antt =====
-- latin1_to_utf8 of mailbody.c against a strict reader of UTF-8.
use sklaffkom.Base.{
  refl, ℕ, ◌<◌, Bool, Option, Bytes, All, ◌≤◌, ◌≡◌, some, leb, ◌&&◌, ◌+◌, ◌∷◌, length, ◌/◌,
  if◌then◌else◌, arith, none, ◌*◌, ltb, Bool-cases, ◌%◌, [], ◌-◌, inl, ltb→lt, inr,
}
use sklaffkom.Mail.Transfer.{latin1_to_utf8}

abbrev is_second : ℕ → Bool
is_second c = leb 0x80 c && ltb c 0xc0

-- one more code point in front, where there is one
abbrev with_point : ℕ → Option Bytes → Option Bytes
with_point c none = none
with_point c (some s) = some (c ∷ s)

-- The code points of a text in UTF-8, by RFC 3629, as far as they take one or two bytes: `none` on a
-- second byte that stands alone, a first byte without its second, a form that is longer than need
-- be, and a first byte of three or four.
abbrev pub utf8_points : Bytes → Option Bytes
utf8_points [] = some []
utf8_points (c ∷ []) = if ltb c 0x80 then some (c ∷ []) else none
utf8_points (c ∷ d ∷ s) =
    let short = with_point c (utf8_points (d ∷ s)) in
    let long = with_point ((c - 0xc0) * 64 + (d - 0x80)) (utf8_points s) in
    if ltb c 0x80 then short else if leb 0xc2 c && ltb c 0xe0 && is_second d then long else none

abbrev pub IsByte : ℕ → Type 0
IsByte c = c < 256

short_point :
    (c : ℕ) (s t : Bytes) → c < 0x80 → utf8_points t ≡ some s → utf8_points (c ∷ t) ≡ some (c ∷ s)
short_point c s [] h e = ground arith
short_point c s (d ∷ t) h e = rw e (ground arith)

long_point :
    (c : ℕ) (s t : Bytes)
    → 0x80 ≤ c
    → c < 256
    → utf8_points t ≡ some s
    → utf8_points ((0xc0 + c / 64) ∷ (0x80 + c % 64) ∷ t) ≡ some (c ∷ s)
long_point c s t lo hi e = rw e (ground arith)

-- What latin1_to_utf8 makes of any bytes is well-formed UTF-8 of the code points that the bytes
-- are in ISO 8859-1, in at most twice as many bytes, which is the room that the function allocates.
pub utf8_points-latin1_to_utf8 :
    (s : Bytes)
    → All IsByte s
    → (utf8_points (latin1_to_utf8 s) ≡ some s) × (length (latin1_to_utf8 s) ≤ length s * 2)
unfolding latin1_to_utf8
utf8_points-latin1_to_utf8 [] h = (refl, omega arith)
utf8_points-latin1_to_utf8 (c ∷ s) (hc, hs) =
    let (ih, room) = utf8_points-latin1_to_utf8 s hs in
    elim (Bool-cases (ltb c 0x80)) [
      | inl e ↦ rw e (short_point c s _ (ltb→lt c 0x80 e) ih, omega (arith, room))
      | inr e ↦ rw e (long_point c s _ (ground arith) hc ih, omega (arith, room))
    ]
