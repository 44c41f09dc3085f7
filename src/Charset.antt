-- ===== src/Charset.antt =====
-- utf.c: the two converters between SF7, in which texts are stored, and UTF-8. That malloc fails, and
-- a NULL argument, are left out.
pub mod RoundTrip
pub mod Sizes
use sklaffkom.Base.{ℕ, [], ◌∷◌, Bytes, ◌==◌, if◌then◌else◌}

-- the second bytes of å, ä, ö, Å, Ä and Ö in UTF-8; the first is 0xC3
abbrev pub lead : ℕ
lead = 195

-- one round of the loop, before what the rest of the string is converted to
abbrev pub encode : ℕ → Bytes → Bytes
encode s d =
    if s == b'}'
    then lead ∷ 165 ∷ d
    else if s == b'{'
    then lead ∷ 164 ∷ d
    else if s == b'|'
    then lead ∷ 182 ∷ d
    else if s == b']'
    then lead ∷ 133 ∷ d
    else if s == b'['
    then lead ∷ 132 ∷ d
    else if s == b'\\'
    then lead ∷ 150 ∷ d
    else s ∷ d

unfoldable pub sf7_to_utf8_dup : Bytes → Bytes
sf7_to_utf8_dup [] = []
sf7_to_utf8_dup (s ∷ rest) = encode s (sf7_to_utf8_dup rest)

-- the `switch (s[1])`: what follows a letter, or the default
abbrev pub decode : ℕ → Bytes → Bytes → Bytes
decode s1 letter other =
    if s1 == 165
    then b'}' ∷ letter
    else if s1 == 164
    then b'{' ∷ letter
    else if s1 == 182
    then b'|' ∷ letter
    else if s1 == 133
    then b']' ∷ letter
    else if s1 == 132
    then b'[' ∷ letter
    else if s1 == 150
    then b'\\' ∷ letter
    else other

unfoldable pub utf8_to_sf7_dup : Bytes → Bytes
utf8_to_sf7_dup [] = []
utf8_to_sf7_dup (s0 ∷ []) = s0 ∷ []
utf8_to_sf7_dup (s0 ∷ s1 ∷ s) =
    let letter = utf8_to_sf7_dup s in
    let other = s0 ∷ utf8_to_sf7_dup (s1 ∷ s) in
    if s0 == lead then decode s1 letter other else other
