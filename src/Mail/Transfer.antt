-- ===== src/Mail/Transfer.antt =====
-- mailbody.c: the decoders of quoted-printable and base64, the converter from ISO 8859-1 to UTF-8,
-- and decode_body, which applies them. A body is the list of its bytes; each decoder stops at the
-- length it is given, so a body may hold NUL.
pub mod Base64
pub mod Quoted
pub mod Latin
pub mod Room
use sklaffkom.Base.{
  ℕ, ◌+◌, ◌-◌, ◌*◌, ◌/◌, ◌%◌, ◌^◌, Bool, ◌&&◌, ◌||◌, Option, none, some, [], ◌∷◌, Bytes, codes, ltb,
  leb, ◌==◌, if◌then◌else◌,
}
use sklaffkom.Libc.{isdigit}
use sklaffkom.Mail.{contains}

-- `none` is the -1 of the source
abbrev pub hexval : ℕ → Option ℕ
hexval c =
    if leb b'0' c && leb c b'9'
    then some (c - b'0')
    else if leb b'a' c && leb c b'f'
    then some (c - b'a' + 10)
    else if leb b'A' c && leb c b'F'
    then some (c - b'A' + 10)
    else none

-- isxdigit in the C locale
abbrev pub isxdigit : ℕ → Bool
isxdigit c = isdigit c || (leb b'a' c && leb c b'f') || (leb b'A' c && leb c b'F')

-- (hi << 4) | lo, for two digits
abbrev pub hex_byte : Option ℕ → Option ℕ → ℕ
hex_byte (some hi) (some lo) = hi * 16 + lo
hex_byte _ _ = 0

-- One round of the loop looks at three bytes. The last two bytes are copied as they are, since
-- `i + 2 < in_len` fails there. The second test of CR and LF repeats the first.
unfoldable pub decode_qp : Bytes → Bytes
decode_qp [] = []
decode_qp (c ∷ []) = c ∷ []
decode_qp (c ∷ a ∷ []) = c ∷ a ∷ []
decode_qp (c ∷ a ∷ b ∷ s) =
    let copied = c ∷ decode_qp (a ∷ b ∷ s) in
    let behind_lf = decode_qp (b ∷ s) in
    let behind = decode_qp s in
    if c == b'='
    then (if a == b'\r' && b == b'\n'
        then behind
        else if a == b'\n'
        then behind_lf
        else if isxdigit a && isxdigit b
        then hex_byte (hexval a) (hexval b) ∷ behind
        else copied)
    else copied

-- `none` is the -1 of the source
unfoldable pub b64val : ℕ → Option ℕ
b64val c =
    if leb b'A' c && leb c b'Z'
    then some (c - b'A')
    else if leb b'a' c && leb c b'z'
    then some (c - b'a' + 26)
    else if leb b'0' c && leb c b'9'
    then some (c - b'0' + 52)
    else if c == b'+'
    then some 62
    else if c == b'/'
    then some 63
    else none

-- (val << 6) | d on an int, as the bits of the machine word
abbrev pub push : ℕ → ℕ → ℕ
push val d = (val * 64 + d) % 2 ^ 32

-- (val >> valb) & 0xff
abbrev pub byte_at : ℕ → ℕ → ℕ
byte_at val valb = val / 2 ^ valb % 256

-- `held` is valb + 8, which is at least 0: the bits of `val` that are not written yet.
unfoldable pub base64_loop : ℕ → ℕ → Bytes → Bytes
unfolding b64val
base64_loop val held [] = []
base64_loop val held (c ∷ s) =
    let rest : Bytes = elim (b64val c) [
      | none ↦ base64_loop val held s
      | some d ↦
          let more =
            base64_loop (push val d) (if leb 8 (held + 6) then held + 6 - 8 else held + 6) s in
          if leb 8 (held + 6) then byte_at (push val d) (held + 6 - 8) ∷ more else more
    ] in
    if c == b'=' then [] else rest

unfoldable pub decode_base64 : Bytes → Bytes
unfolding base64_loop
decode_base64 s = base64_loop 0 0 s

-- 0xc0 | (c >> 6) and 0x80 | (c & 0x3f) have no bit twice
unfoldable pub latin1_to_utf8 : Bytes → Bytes
latin1_to_utf8 [] = []
latin1_to_utf8 (c ∷ s) =
    let rest = latin1_to_utf8 s in
    if ltb c 0x80 then c ∷ rest else (0xc0 + c / 64) ∷ (0x80 + c % 64) ∷ rest

unfoldable pub transfer_decoded : Bytes → Bytes → Bytes
unfolding decode_qp decode_base64 contains
transfer_decoded body cte =
    if contains cte (codes "quoted-printable")
    then decode_qp body
    else if contains cte (codes "base64")
    then decode_base64 body
    else body

unfoldable pub is_latin1 : Bytes → Bool
unfolding contains
is_latin1 charset =
    contains charset (codes "iso-8859-1")
    || contains charset (codes "latin1")
    || contains charset (codes "latin-1")

-- the callers give neither `cte` nor `charset` as NULL
unfoldable pub decode_body : Bytes → Bytes → Bytes → Bytes
unfolding transfer_decoded latin1_to_utf8
decode_body body cte charset =
    let tmp = transfer_decoded body cte in if is_latin1 charset then latin1_to_utf8 tmp else tmp
