-- ===== src/Mail/Transfer/Base64.antt =====
-- decode_base64 of mailbody.c against the encoding of RFC 4648, in lines as RFC 2045 wants them.
use sklaffkom.Base.{
  ℕ, refl, false, if◌then◌else◌, Bytes, ◌<◌, ◌≡◌, ◌/◌, leb, ltb, ◌*◌, ◌∷◌, ◌==◌, [], ◌%◌, some, ◌+◌,
  ◌-◌, arith, ◌||◌, true, Bool-cases, none, inl, inr, Option-cases, All,
}
use sklaffkom.Mail.Transfer.Latin.{IsByte}
use sklaffkom.Mail.Transfer.{b64val, base64_loop, push, byte_at, decode_base64}

abbrev pub letter : ℕ → ℕ
letter d =
    if ltb d 26
    then b'A' + d
    else if ltb d 52
    then b'a' + (d - 26)
    else if ltb d 62
    then b'0' + (d - 52)
    else if d == 62
    then b'+'
    else b'/'

-- the base64 encoding of some bytes, without line breaks
abbrev pub encode_base64 : Bytes → Bytes
encode_base64 [] = []
encode_base64 (a ∷ []) = letter (a / 4) ∷ letter (a % 4 * 16) ∷ b'=' ∷ b'=' ∷ []
encode_base64 (a ∷ b ∷ []) =
    letter (a / 4) ∷ letter (a % 4 * 16 + b / 16) ∷ letter (b % 16 * 4) ∷ b'=' ∷ []
encode_base64 (a ∷ b ∷ c ∷ s) =
    letter (a / 4)
    ∷ letter (a % 4 * 16 + b / 16)
    ∷ letter (b % 16 * 4 + c / 64)
    ∷ letter (c % 64)
    ∷ encode_base64 s

-- the text without CR and LF
abbrev pub without_breaks : Bytes → Bytes
without_breaks [] = []
without_breaks (c ∷ s) = if c == b'\r' || c == b'\n' then without_breaks s else c ∷ without_breaks s

letter_lem : (d : ℕ) → d < 64 → (b64val (letter d) ≡ some d) × ((letter d == b'=') ≡ false)
unfolding b64val
letter_lem d h = ground arith

break_lem : (c : ℕ) → (c == b'\r' || c == b'\n') ≡ true → (b64val c ≡ none) × ((c == b'=') ≡ false)
unfolding b64val
break_lem c h = ground arith

base64_loop-without_breaks :
    (t : Bytes) (val held : ℕ) → base64_loop val held t ≡ base64_loop val held (without_breaks t)
unfolding base64_loop
base64_loop-without_breaks [] val held = refl
base64_loop-without_breaks (c ∷ t) val held = elim (Bool-cases (c == b'\r' || c == b'\n')) [
  | inl e ↦
      let (skipped, pad) = break_lem c e in
      rw (e, pad, skipped) (base64_loop-without_breaks t val held)
  | inr e ↦ elim (Option-cases (b64val c)) [
    | inl skipped ↦ rw (e, skipped) (rw (base64_loop-without_breaks t val held) refl)
    | inr (d, taken) ↦
        rw (e, taken)
          (rw
            (base64_loop-without_breaks t (push val d)
              (if leb 8 (held + 6) then held + 6 - 8 else held + 6))
            refl)
  ]
]

-- what one letter adds, when `held` bits wait
abbrev after_letter : ℕ → ℕ → Bytes → Bytes
after_letter val held s =
    let more = base64_loop val (if leb 8 (held + 6) then held + 6 - 8 else held + 6) s in
    if leb 8 (held + 6) then byte_at val (held + 6 - 8) ∷ more else more

base64_loop-letter :
    (d val held : ℕ) (s : Bytes)
    → d < 64
    → base64_loop val held (letter d ∷ s) ≡ after_letter (push val d) held s
unfolding base64_loop
base64_loop-letter d val held s h = let (e, pad) = letter_lem d h in rw (pad, e) refl

-- the bytes that two, three and four letters give
first_byte : (v a d : ℕ) → a < 256 → d / 16 ≡ a % 4 → byte_at (push (push v (a / 4)) d) 4 ≡ a
first_byte v a d h e = omega arith

second_byte :
    (v b c d : ℕ) → b < 256 → c % 16 ≡ b / 16 → d / 4 ≡ b % 16 → byte_at (push (push v c) d) 2 ≡ b
second_byte v b c d h e f = omega arith

third_byte : (v c d : ℕ) → c < 256 → d % 4 ≡ c / 64 → byte_at (push (push v d) (c % 64)) 0 ≡ c
third_byte v c d h e = omega arith

four_letters :
    (v a b c : ℕ) (t : Bytes)
    → IsByte a
    → IsByte b
    → IsByte c
    → (w : ℕ) × (base64_loop v 0 (
          letter (a / 4)
          ∷ letter (a % 4 * 16 + b / 16)
          ∷ letter (b % 16 * 4 + c / 64)
          ∷ letter (c % 64)
          ∷ t)
        ≡ a ∷ b ∷ c ∷ base64_loop w 0 t)
four_letters v a b c t ha hb hc = (
  push (push (push (push v (a / 4)) (a % 4 * 16 + b / 16)) (b % 16 * 4 + c / 64)) (c % 64),
  rw
      (
        base64_loop-letter (a / 4) v 0 _ (omega arith),
        base64_loop-letter (a % 4 * 16 + b / 16) (push v (a / 4)) 6 _ (omega arith),
        base64_loop-letter (b % 16 * 4 + c / 64) (push (push v (a / 4)) (a % 4 * 16 + b / 16)) 4 _
            (omega arith),
        base64_loop-letter (c % 64)
            (push (push (push v (a / 4)) (a % 4 * 16 + b / 16)) (b % 16 * 4 + c / 64)) 2 _
            (omega arith),
        first_byte v a (a % 4 * 16 + b / 16) ha (omega arith),
        second_byte (push v (a / 4)) b (a % 4 * 16 + b / 16) (b % 16 * 4 + c / 64) hb (omega arith)
            (omega arith),
        third_byte (push (push v (a / 4)) (a % 4 * 16 + b / 16)) c (b % 16 * 4 + c / 64) hc
            (omega arith),
      )
      refl,
)

base64_loop-encode_base64 :
    (s : Bytes) (v : ℕ) → All IsByte s → base64_loop v 0 (encode_base64 s) ≡ s
base64_loop-encode_base64 [] v h = unfold base64_loop in refl
base64_loop-encode_base64 (a ∷ []) v (ha, _) =
    rw
      (
        base64_loop-letter (a / 4) v 0 _ (omega arith),
        base64_loop-letter (a % 4 * 16) _ 6 _ (omega arith),
        first_byte v a (a % 4 * 16) ha (omega arith),
      )
      (unfold base64_loop in refl)
base64_loop-encode_base64 (a ∷ b ∷ []) v (ha, (hb, _)) =
    rw
      (
        base64_loop-letter (a / 4) v 0 _ (omega arith),
        base64_loop-letter (a % 4 * 16 + b / 16) _ 6 _ (omega arith),
        base64_loop-letter (b % 16 * 4) _ 4 _ (omega arith),
        first_byte v a (a % 4 * 16 + b / 16) ha (omega arith),
        second_byte (push v (a / 4)) b (a % 4 * 16 + b / 16) (b % 16 * 4) hb (omega arith)
            (omega arith),
      )
      (unfold base64_loop in refl)
base64_loop-encode_base64 (a ∷ b ∷ c ∷ s) v (ha, (hb, (hc, hs))) =
    let (w, e) = four_letters v a b c (encode_base64 s) ha hb hc in
    rw (e, base64_loop-encode_base64 s w hs) refl

-- decode_base64 gives back the bytes whose base64 encoding, with its padding, a text is, wherever the
-- text is broken by CR and LF.
pub decode_base64-encode_base64 :
    (t s : Bytes) → All IsByte s → without_breaks t ≡ encode_base64 s → decode_base64 t ≡ s
unfolding decode_base64
decode_base64-encode_base64 t s h e =
    rw (base64_loop-without_breaks t 0 0, e) (base64_loop-encode_base64 s 0 h)
