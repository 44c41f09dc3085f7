-- ===== src/Mail/Transfer/Quoted.antt =====
-- decode_qp of mailbody.c against the encodings that RFC 2045 allows.
use sklaffkom.Base.{refl, ℕ, ◌≡◌, Bytes, some, ◌≢◌, [], ◌∷◌, ◌*◌, arith, true, ◌+◌, ◌==◌, false}
use sklaffkom.Mail.Transfer.{hexval, decode_qp, isxdigit}

-- `Quoted s t`: the text `t` encodes the bytes `s`. A byte other than the equals sign may stand for
-- itself, every byte may be written as two hexadecimal digits in either case, and a soft line break
-- stands for nothing. A soft break of LF alone has a byte behind it.
pub data Quoted : Bytes → Bytes → Type 0 where
  nothing : Quoted [] []
  literal : {s t : Bytes} (c : ℕ) → c ≢ b'=' → Quoted s t → Quoted (c ∷ s) (c ∷ t)
  escaped :
      {s t : Bytes} (x y hi lo : ℕ)
      → hexval x ≡ some hi
      → hexval y ≡ some lo
      → Quoted s t
      → Quoted ((hi * 16 + lo) ∷ s) (b'=' ∷ x ∷ y ∷ t)
  soft_crlf : {s t : Bytes} → Quoted s t → Quoted s (b'=' ∷ b'\r' ∷ b'\n' ∷ t)
  soft_lf : {s t : Bytes} (y : ℕ) → Quoted s (y ∷ t) → Quoted s (b'=' ∷ b'\n' ∷ y ∷ t)

copied : (c : ℕ) (t : Bytes) → c ≢ b'=' → decode_qp (c ∷ t) ≡ c ∷ decode_qp t
unfolding decode_qp
copied c [] h = refl
copied c (a ∷ []) h = refl
copied c (a ∷ b ∷ t) h = ground arith

digit : (x hi : ℕ) → hexval x ≡ some hi → (isxdigit x ≡ true) × (x ≢ b'\n') × (x ≢ b'\r')
digit x hi e = ground arith

decoded :
    (x y hi lo : ℕ) (t : Bytes)
    → hexval x ≡ some hi
    → hexval y ≡ some lo
    → decode_qp (b'=' ∷ x ∷ y ∷ t) ≡ (hi * 16 + lo) ∷ decode_qp t
unfolding decode_qp
decoded x y hi lo t ex ey =
    let (dx, nx, rx) = digit x hi ex in
    let (dy, ny, ry) = digit y lo ey in
    let cr : (x == b'\r') ≡ false = ground arith in
    let lf : (x == b'\n') ≡ false = ground arith in rw (cr, lf, dx, dy, ex, ey) refl

-- decode_qp gives back the bytes that a quoted-printable text encodes, whichever bytes it escapes and
-- wherever it breaks its lines; a soft break of LF alone may not end the text.
pub decode_qp-Quoted : {s t : Bytes} → Quoted s t → decode_qp t ≡ s
unfolding decode_qp
decode_qp-Quoted nothing = refl
decode_qp-Quoted (literal {s} {t} c h q) = rw (copied c t h, decode_qp-Quoted q) refl
decode_qp-Quoted (escaped {s} {t} x y hi lo ex ey q) =
    rw (decoded x y hi lo t ex ey, decode_qp-Quoted q) refl
decode_qp-Quoted (soft_crlf q) = decode_qp-Quoted q
decode_qp-Quoted (soft_lf y q) = decode_qp-Quoted q
