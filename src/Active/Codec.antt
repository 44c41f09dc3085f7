-- ===== src/Active/Codec.antt =====
-- One line of ACTIVE_FILE: what replace_active (user.c) prints, and get_active_entry (buf.c).
use sklaffkom.Base.{
  ◌≡◌, refl, sym, ap, ◌∙◌, some, [], ◌∷◌, ◌++◌, Bytes, ℤ, ◌==◌, false, append_assoc, All-append,
  codes, none,
}
use sklaffkom.Active.{ActiveEntry, get_active_entry, active_fields, active_line, none}
use sklaffkom.Confs.Lines.{IsText}
use sklaffkom.Libc.Columns.{strchr_next-print_int, print_int-cons}
use sklaffkom.Libc.Decimal.{
  IsInt, IsLong, Lacks, atoi-print_int, atol-print_int, strtol-print_int, IsInt-IsLong,
  to_int-IsInt, print_int-append, print_int-Lacks,
}
use sklaffkom.Libc.Search.{strchr_next-found, before-found}
use sklaffkom.Libc.{print_int, strtol, strchr_next}
use sklaffkom.Records.Files.{Format}

-- The numbers fit their C types, and neither string has a colon or a newline.
pub record Fits (ae : ActiveEntry) : Type 0 where
  pub user : IsInt ae.user
  pub pid : IsInt ae.pid
  pub login_time : IsLong ae.login_time
  pub avail : IsInt ae.avail
  pub from : Lacks b':' ae.from
  pub from_line : Lacks b'\n' ae.from
  pub tty : Lacks b':' ae.tty
  pub tty_line : Lacks b'\n' ae.tty

abbrev column : ℤ → Bytes → Bytes
column z t = print_int z (b':' ∷ t)

-- a line without its newline, with something behind it
abbrev text_then : ActiveEntry → Bytes → Bytes
text_then ae t = column ae.user (
    column ae.pid (
      column ae.login_time
        (column ae.avail (ae.from ++ b':' ∷ (ae.tty ++ (codes ":dum:dum:dum" ++ t))))))

-- The text of a line before its newline.
abbrev pub active_text : ActiveEntry → Bytes
active_text ae = text_then ae []

column-append : (z : ℤ) (s t u : Bytes) → s ≡ t ++ u → column z s ≡ column z t ++ u
column-append z s t u e = ap (λ r. print_int z (58 ∷ r)) e ∙ print_int-append z (58 ∷ t) u

strings-append : (a b t u : Bytes) → a ++ b':' ∷ (b ++ (t ++ u)) ≡ (a ++ b':' ∷ (b ++ t)) ++ u
strings-append a b t u =
    ap (λ r. a ++ 58 ∷ r) (sym (append_assoc b t u)) ∙ sym (append_assoc a (58 ∷ (b ++ t)) u)

pub active_line-text :
    (ae : ActiveEntry) (tail : Bytes) → active_line ae tail ≡ active_text ae ++ b'\n' ∷ tail
active_line-text ae tail = column-append ae.user _ _ _ (
    column-append ae.pid _ _ _ (
      column-append ae.login_time _ _ _ (
        column-append ae.avail _ _ _
          (strings-append ae.from ae.tty (codes ":dum:dum:dum") (10 ∷ tail)))))

dums-Lacks : Lacks b'\n' (codes ":dum:dum:dum")
dums-Lacks = (
  refl,
  (refl, (refl, (refl, (refl, (refl, (refl, (refl, (refl, (refl, (refl, (refl, tt))))))))))),
)

active_text-Lacks : (ae : ActiveEntry) → Fits ae → Lacks b'\n' (active_text ae)
active_text-Lacks ae h =
    let field =
      λ (z : ℤ) (t : Bytes) (k : Lacks 10 t). print_int-Lacks 10 z (58 ∷ t) refl refl (refl, k) in
    let strings =
      All-append (λ x. (x == 10) ≡ false) ae.from _ h.from_line
        (refl, All-append (λ x. (x == 10) ≡ false) ae.tty _ h.tty_line dums-Lacks) in
    field ae.user _ (field ae.pid _ (field ae.login_time _ (field ae.avail _ strings)))

strchr_next-active_line :
    (ae : ActiveEntry) (tail : Bytes)
    → Fits ae
    → strchr_next (active_line ae tail) b'\n' ≡ some tail
strchr_next-active_line ae tail h =
    ap (λ s. strchr_next s 10) (active_line-text ae tail)
    ∙ strchr_next-found (active_text ae) 10 tail (active_text-Lacks ae h)

active_fields-line :
    (ae : ActiveEntry) (tail : Bytes)
    → Fits ae
    → active_fields ae.user (active_line ae tail) ≡ some (some (ae, tail))
unfolding active_fields
active_fields-line ae tail h =
    let colon = λ (z : ℤ) (rest : Bytes). strchr_next-print_int 58 z rest refl refl in
    let dums = codes "dum:dum:dum" ++ b'\n' ∷ tail in
    rw
      (
        strchr_next-active_line ae tail h,
        colon ae.user _,
        colon ae.pid _,
        colon ae.login_time _,
        colon ae.avail _,
        strchr_next-found ae.from 58 (ae.tty ++ 58 ∷ dums) h.from,
        before-found ae.from 58 (ae.tty ++ 58 ∷ dums) h.from,
        strchr_next-found ae.tty 58 dums h.tty,
        before-found ae.tty 58 dums h.tty,
        atoi-print_int ae.pid _ h.pid refl,
        atol-print_int ae.login_time _ h.login_time refl,
        atoi-print_int ae.avail _ h.avail refl,
      )
      refl

-- get_active_entry reads the line of replace_active back, whatever follows it in the buffer, and returns
-- the place behind it, for every entry whose numbers fit their C types and whose two strings have no
-- colon and no newline.
pub get_active_entry-active_line :
    (ae : ActiveEntry) (rest : Bytes)
    → Fits ae
    → get_active_entry (active_line ae rest) ≡ some (some (ae, rest))
unfolding get_active_entry
get_active_entry-active_line ae rest h =
    rw (strtol-print_int ae.user _ (IsInt-IsLong ae.user h.user) refl, to_int-IsInt ae.user h.user)
      (active_fields-line ae rest h)

pub get_active_entry-end : get_active_entry [] ≡ some none
unfolding get_active_entry strtol
get_active_entry-end = refl

pub active_text-IsText : (ae : ActiveEntry) → Fits ae → IsText (active_text ae)
active_text-IsText ae h =
    let (c, w, parts) = print_int-cons ae.user _ in
    record { head = c; tail = w; parts = parts; lacks = active_text-Lacks ae h }

-- The lines of ACTIVE_FILE.
abbrev pub active_format : Format ActiveEntry
active_format = record {
  fetch = get_active_entry;
  text = active_text;
  Fits = Fits;
  reads = λ e rest h.
      ap get_active_entry (sym (active_line-text e rest)) ∙ get_active_entry-active_line e rest h;
  ends = get_active_entry-end;
  texts = active_text-IsText;
}
