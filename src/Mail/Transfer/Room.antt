-- ===== src/Mail/Transfer/Room.antt =====
-- How much the decoders of mailbody.c write.
use sklaffkom.Base.{
  inl, inr, ◌≤◌, Bool-cases, ℕ, Bytes, length, ◌+◌, ◌*◌, ◌/◌, arith, ◌∷◌, [], Option-cases,
  if◌then◌else◌, leb, ◌-◌, ◌==◌, ◌&&◌,
}
use sklaffkom.Mail.Transfer.{
  decode_qp, b64val, base64_loop, decode_base64, latin1_to_utf8, push, isxdigit,
}

length-base64_loop :
    (t : Bytes) (val held : ℕ) → length (base64_loop val held t) * 8 ≤ held + length t * 6
unfolding base64_loop
length-base64_loop [] val held = omega arith
length-base64_loop (c ∷ t) val held = elim (Option-cases (b64val c)) [
  | inl e ↦ rw e (ground (arith, length-base64_loop t val held))
  | inr (d, e) ↦ rw e (
      ground (
        arith,
        length-base64_loop t (push val d) (if leb 8 (held + 6) then held + 6 - 8 else held + 6),
      ))
]

length-decode_qp : (t : Bytes) → length (decode_qp t) ≤ length t
unfolding decode_qp
length-decode_qp [] = omega arith
length-decode_qp (c ∷ []) = omega arith
length-decode_qp (c ∷ a ∷ []) = omega arith
length-decode_qp (c ∷ a ∷ b ∷ t) = elim (Bool-cases (c == b'=')) [
  | inr e ↦ rw e (omega (arith, length-decode_qp (a ∷ b ∷ t)))
  | inl e ↦ elim (Bool-cases (a == b'\r' && b == b'\n')) [
    | inl f ↦ rw (e, f) (omega (arith, length-decode_qp t))
    | inr f ↦ elim (Bool-cases (a == b'\n')) [
      | inl g ↦ rw (e, f, g) (omega (arith, length-decode_qp (b ∷ t)))
      | inr g ↦ elim (Bool-cases (isxdigit a && isxdigit b)) [
        | inl h ↦ rw (e, f, g, h) (omega (arith, length-decode_qp t))
        | inr h ↦ rw (e, f, g, h) (omega (arith, length-decode_qp (a ∷ b ∷ t)))
      ]
    ]
  ]
]

length-latin1_to_utf8 : (t : Bytes) → length (latin1_to_utf8 t) ≤ length t * 2
unfolding latin1_to_utf8
length-latin1_to_utf8 [] = omega arith
length-latin1_to_utf8 (c ∷ t) = ground (arith, length-latin1_to_utf8 t)

-- On any text, well formed or not, each of the three decoders writes its result and the NUL behind it
-- within the room that it allocates: in_len + 1 bytes, in_len * 3 / 4 + 4, and in_len * 2 + 1.
pub decoders-room :
    (t : Bytes)
    → (length (decode_qp t) + 1 ≤ length t + 1)
      × (length (decode_base64 t) + 1 ≤ length t * 3 / 4 + 4)
      × (length (latin1_to_utf8 t) + 1 ≤ length t * 2 + 1)
unfolding decode_base64
decoders-room t = (
  omega (arith, length-decode_qp t),
  omega (arith, length-base64_loop t 0 0),
  omega (arith, length-latin1_to_utf8 t),
)
