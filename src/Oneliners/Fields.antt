-- ===== src/Oneliners/Fields.antt =====
-- One field of a record: write_escaped and parse_decoded_field (iboldb.c).
use sklaffkom.Base.{
  ℕ, ◌≡◌, refl, ◌∙◌, ap, sym, arith, Bytes, Bool, true, false, [], ◌∷◌, ◌++◌, some, length, ◌+◌,
  ◌<◌, append_assoc, length-append, append-nil,
}
use sklaffkom.Oneliners.{escape, write_escaped, parse_decoded_field}

-- a byte that was escaped is appended
parse-escape :
    (final : Bool) (n c : ℕ) (t dst : Bytes)
    → length dst + 1 < n
    → parse_decoded_field final n (escape c t) dst ≡ parse_decoded_field final n t (dst ++ c ∷ [])
unfolding parse_decoded_field
parse-escape true n c [] dst h = ground arith
parse-escape false n c [] dst h = ground arith
parse-escape true n c (d ∷ t) dst h = ground arith
parse-escape false n c (d ∷ t) dst h = ground arith

parse-write_escaped :
    (final : Bool) (n : ℕ) (s t dst : Bytes)
    → length dst + length s < n
    → parse_decoded_field final n (write_escaped s t) dst ≡ parse_decoded_field final n t (dst ++ s)
unfolding write_escaped
parse-write_escaped final n [] t dst h = ap (parse_decoded_field final n t) (sym (append-nil dst))
parse-write_escaped final n (c ∷ s) t dst h =
    let size = length-append dst (c ∷ []) in
    parse-escape final n c (write_escaped s t) dst (omega arith)
    ∙ parse-write_escaped final n s t (dst ++ c ∷ []) (omega arith)
    ∙ ap (parse_decoded_field final n t) (append_assoc dst (c ∷ []) s)

colon_ends : (n : ℕ) (t dst : Bytes) → parse_decoded_field false n (b':' ∷ t) dst ≡ some (dst, t)
unfolding parse_decoded_field
colon_ends n [] dst = refl
colon_ends n (c ∷ t) dst = refl

newline_ends :
    (n : ℕ) (t dst : Bytes) → parse_decoded_field true n (b'\n' ∷ t) dst ≡ some (dst, b'\n' ∷ t)
unfolding parse_decoded_field
newline_ends n [] dst = refl
newline_ends n (c ∷ t) dst = refl

-- parse_decoded_field gives back what write_escaped wrote, whatever bytes it holds, if it is shorter
-- than the destination: a field followed by a colon, with the place behind the colon, and the last
-- field, with the place of the newline that follows it.
pub parse_decoded_field-write_escaped :
    (n : ℕ) (s t : Bytes)
    → length s < n
    → (parse_decoded_field false n (write_escaped s (b':' ∷ t)) [] ≡ some (s, t))
      × (parse_decoded_field true n (write_escaped s (b'\n' ∷ t)) [] ≡ some (s, b'\n' ∷ t))
parse_decoded_field-write_escaped n s t h = (
  parse-write_escaped false n s (58 ∷ t) [] (omega arith) ∙ colon_ends n t s,
  parse-write_escaped true n s (10 ∷ t) [] (omega arith) ∙ newline_ends n t s,
)
