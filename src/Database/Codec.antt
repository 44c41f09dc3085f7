-- ===== src/Database/Codec.antt =====
-- One line of CONF_FILE: stringify_conf_struct (conf.c) and get_conf_entry (buf.c).
use sklaffkom.Base.{
  ◌≡◌, refl, sym, ap, ◌∙◌, some, [], ◌∷◌, ◌++◌, Bytes, ℤ, ◌==◌, false, append_assoc, All-append,
}
use sklaffkom.Libc.{print_int}
use sklaffkom.Libc.Columns.{strchr_next-print_int}
use sklaffkom.Libc.Decimal.{
  IsInt, IsLong, Lacks, atoi-print_int, atol-print_int, strtol-print_int, IsInt-IsLong,
  to_int-IsInt, print_int-append, print_int-Lacks,
}
use sklaffkom.Libc.Search.{strchr_next-found, before-found}
use sklaffkom.Database.{ConfEntry, get_conf_entry, conf_fields, conf_line, stringify_conf_struct}

-- The numbers fit their C types, and the name has no newline.
pub record Fits (ce : ConfEntry) : Type 0 where
  pub num : IsInt ce.num
  pub last_text : IsLong ce.last_text
  pub creator : IsInt ce.creator
  pub time : IsLong ce.time
  pub type : IsInt ce.type
  pub life : IsInt ce.life
  pub comconf : IsInt ce.comconf
  pub name : Lacks b'\n' ce.name

conf_fields-line :
    (ce : ConfEntry) (tail : Bytes)
    → Fits ce
    → conf_fields ce.num (conf_line ce tail) ≡ some (some (ce, tail))
unfolding conf_fields
conf_fields-line ce tail h =
    let colon = λ (z : ℤ) (rest : Bytes). strchr_next-print_int 58 z rest refl refl in
    rw
      (
        colon ce.num _,
        colon ce.last_text _,
        colon ce.creator _,
        colon ce.time _,
        colon ce.type _,
        colon ce.life _,
        colon ce.comconf _,
        strchr_next-found ce.name 10 tail h.name,
        before-found ce.name 10 tail h.name,
        atol-print_int ce.last_text _ h.last_text refl,
        atoi-print_int ce.creator _ h.creator refl,
        atol-print_int ce.time _ h.time refl,
        atoi-print_int ce.type _ h.type refl,
        atoi-print_int ce.life _ h.life refl,
        atoi-print_int ce.comconf _ h.comconf refl,
      )
      refl

pub get_conf_entry-line :
    (ce : ConfEntry) (tail : Bytes)
    → Fits ce
    → get_conf_entry (conf_line ce tail) ≡ some (some (ce, tail))
unfolding get_conf_entry
get_conf_entry-line ce tail h =
    rw (strtol-print_int ce.num _ (IsInt-IsLong ce.num h.num) refl, to_int-IsInt ce.num h.num)
      (conf_fields-line ce tail h)

-- a line before its newline, with something behind it
abbrev text_then : ConfEntry → Bytes → Bytes
text_then ce t = print_int ce.num (
    b':'
    ∷ print_int ce.last_text (
        b':'
        ∷ print_int ce.creator (
            b':'
            ∷ print_int ce.time (
                b':'
                ∷ print_int ce.type (
                    b':'
                    ∷ print_int ce.life (b':' ∷ print_int ce.comconf (b':' ∷ (ce.name ++ t))))))))

column : (z : ℤ) (s t u : Bytes) → s ≡ t ++ u → print_int z (b':' ∷ s) ≡ print_int z (b':' ∷ t) ++ u
column z s t u e = ap (λ r. print_int z (58 ∷ r)) e ∙ print_int-append z (58 ∷ t) u

text_then-append : (ce : ConfEntry) (t u : Bytes) → text_then ce (t ++ u) ≡ text_then ce t ++ u
text_then-append ce t u = column ce.num _ _ u (
    column ce.last_text _ _ u (
      column ce.creator _ _ u (
        column ce.time _ _ u (
          column ce.type _ _ u
            (column ce.life _ _ u (column ce.comconf _ _ u (sym (append_assoc ce.name t u))))))))

-- The text of a line before its newline.
abbrev pub conf_text : ConfEntry → Bytes
conf_text ce = text_then ce []

pub conf_line-text :
    (ce : ConfEntry) (tail : Bytes) → conf_line ce tail ≡ conf_text ce ++ b'\n' ∷ tail
conf_line-text ce tail = text_then-append ce [] (10 ∷ tail)

pub stringify-append :
    (ce : ConfEntry) (rest : Bytes) → stringify_conf_struct ce ++ rest ≡ conf_line ce rest
unfolding stringify_conf_struct
stringify-append ce rest = sym (text_then-append ce (10 ∷ []) rest)

-- get_conf_entry reads a line written by stringify_conf_struct back, whatever follows it in the buffer,
-- and returns the place behind the line, for every entry whose numbers fit their C types and whose name
-- has no newline; the name may have colons in it.
pub get_conf_entry-stringify :
    (ce : ConfEntry) (rest : Bytes)
    → Fits ce
    → get_conf_entry (stringify_conf_struct ce ++ rest) ≡ some (some (ce, rest))
get_conf_entry-stringify ce rest h =
    ap get_conf_entry (stringify-append ce rest) ∙ get_conf_entry-line ce rest h

pub conf_text-Lacks : (ce : ConfEntry) → Fits ce → Lacks b'\n' (conf_text ce)
conf_text-Lacks ce h =
    let field =
      λ (z : ℤ) (t : Bytes) (k : Lacks 10 t). print_int-Lacks 10 z (58 ∷ t) refl refl (refl, k) in
    field ce.num _ (
      field ce.last_text _ (
        field ce.creator _ (
          field ce.time _ (
            field ce.type _ (
              field ce.life _
                (field ce.comconf _ (All-append (λ x. (x == 10) ≡ false) ce.name [] h.name tt)))))))
