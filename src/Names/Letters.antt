-- ===== src/Names/Letters.antt =====
-- fake_string and real_string (lib/sort_util.c).
use sklaffkom.Base.{ℕ, ◌≡◌, refl, [], ◌∷◌, arith, Bytes}
use mathlib.Core.Path.{ap₂}
use sklaffkom.Names.{fake, real, fake_string, real_string}

real-fake : (c : ℕ) → real (fake c) ≡ c
real-fake c = ground arith

fake-real : (c : ℕ) → fake (real c) ≡ c
fake-real c = ground arith

real_string-fake_string : (s : Bytes) → real_string (fake_string s) ≡ s
unfolding fake_string real_string
real_string-fake_string [] = refl
real_string-fake_string (c ∷ s) = ap₂ (◌∷◌) (real-fake c) (real_string-fake_string s)

fake_string-real_string : (s : Bytes) → fake_string (real_string s) ≡ s
unfolding fake_string real_string
fake_string-real_string [] = refl
fake_string-real_string (c ∷ s) = ap₂ (◌∷◌) (fake-real c) (fake_string-real_string s)

-- fake_string and real_string undo each other on every string, so that sorting the faked names loses
-- nothing; and fake_string puts the Swedish letters in the order of the alphabet behind z and Z.
pub fake_string_lem :
    ((s : Bytes) → real_string (fake_string s) ≡ s)
    × ((s : Bytes) → fake_string (real_string s) ≡ s)
    × (fake_string (b'z' ∷ b'}' ∷ b'{' ∷ b'|' ∷ []) ≡ b'z' ∷ 123 ∷ 124 ∷ 125 ∷ [])
    × (fake_string (b'Z' ∷ b']' ∷ b'[' ∷ b'\\' ∷ []) ≡ b'Z' ∷ 91 ∷ 92 ∷ 93 ∷ [])
unfolding fake_string
fake_string_lem = (real_string-fake_string, fake_string-real_string, refl, refl)
