-- ===== src/Oneliners/RoundTrip.antt =====
-- ibol_db_write_record and ibol_db_parse_line (iboldb.c).
use sklaffkom.Base.{
  is_empty, ℕ, ◌≡◌, refl, ◌∙◌, ap, sym, arith, Bytes, false, [], ◌∷◌, ◌++◌, some, length, ◌<◌, ◌≤◌,
  pos,
}
use sklaffkom.Libc.{print_nat, print_int, long_max}
use sklaffkom.Libc.Errno.{strtol_errno-print_nat, length-print_nat}
use sklaffkom.Libc.Decimal.{print_nat-append, print_nat-Lacks, Lacks}
use sklaffkom.Oneliners.{
  IbolRecord, write_escaped, ibol_db_write_record, ibol_db_parse_line, parse_decoded_field,
}
use sklaffkom.Oneliners.Fields.{parse_decoded_field-write_escaped}

-- The record fits the C types, and its MSGID is not empty.
pub record IsStorable (r : IbolRecord) (n : ℕ) : Type 0 where
  pub stamp : r.timestamp ≡ pos n
  pub range : n ≤ long_max
  pub named : is_empty r.msgid ≡ false
  pub msgid : length r.msgid < 256
  pub author : length r.author < 128
  pub source : length r.source < 256
  pub text : length r.text < 4096

write_escaped-plain :
    (s t : Bytes)
    → Lacks b'\\' s
    → Lacks b':' s
    → Lacks b'\n' s
    → Lacks 13 s
    → Lacks 9 s
    → write_escaped s t ≡ s ++ t
unfolding write_escaped
write_escaped-plain [] t a b c d e = refl
write_escaped-plain (x ∷ s) t a b c d e =
    rw (a.0, b.0, c.0, d.0, e.0) (ap (◌∷◌ x) (write_escaped-plain s t a.1 b.1 c.1 d.1 e.1))

-- a number is not changed by the escapes
write_escaped-print_nat : (n : ℕ) (t : Bytes) → write_escaped (print_nat n []) t ≡ print_nat n t
write_escaped-print_nat n t =
    write_escaped-plain (print_nat n []) t (print_nat-Lacks 92 n [] refl tt)
      (print_nat-Lacks 58 n [] refl tt) (print_nat-Lacks 10 n [] refl tt)
      (print_nat-Lacks 13 n [] refl tt) (print_nat-Lacks 9 n [] refl tt)
    ∙ sym (print_nat-append n [] t)

parse-print_nat :
    (n : ℕ) (t : Bytes)
    → n ≤ long_max
    → parse_decoded_field false 64 (print_nat n (b':' ∷ t)) [] ≡ some (print_nat n [], t)
parse-print_nat n t h =
    ap (λ s. parse_decoded_field false 64 s []) (sym (write_escaped-print_nat n (58 ∷ t)))
    ∙ (parse_decoded_field-write_escaped 64 (print_nat n []) t
        (omega (arith, length-print_nat n 18 [] (omega arith)))).0

-- ibol_db_parse_line reads every record back from the line that ibol_db_write_record wrote for it,
-- whatever bytes its fields hold, if the time stamp is a long that is not negative, the MSGID is not
-- empty, and the fields with their NULs fit the arrays of the record.
pub ibol_db_parse_line-ibol_db_write_record :
    (r : IbolRecord) (n : ℕ) → IsStorable r n → ibol_db_parse_line (ibol_db_write_record r) ≡ some r
unfolding ibol_db_write_record print_int ibol_db_parse_line
ibol_db_parse_line-ibol_db_write_record r n h =
    rw
      (
        h.stamp,
        parse-print_nat n _ h.range,
        strtol_errno-print_nat n [] h.range tt,
        (parse_decoded_field-write_escaped 256 r.msgid _ h.msgid).0,
        (parse_decoded_field-write_escaped 128 r.author _ h.author).0,
        (parse_decoded_field-write_escaped 256 r.source _ h.source).0,
        (parse_decoded_field-write_escaped 4096 r.text [] h.text).1,
        h.named,
      )
      refl
