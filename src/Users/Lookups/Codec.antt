-- ===== src/Users/Lookups/Codec.antt =====
-- One line of USER_FILE, as get_user_entry (buf.c) reads it.
use sklaffkom.Base.{◌≡◌, refl, sym, ap, ◌∙◌, none, some, [], ◌∷◌, Bytes, ℤ}
use sklaffkom.Confs.Lines.{IsText}
use sklaffkom.Libc.Columns.{strchr_next-print_int, print_int-cons}
use sklaffkom.Libc.Decimal.{
  IsInt, IsLong, Lacks, atol-print_int, strtol-print_int, IsInt-IsLong, to_int-IsInt,
  print_int-Lacks,
}
use sklaffkom.Libc.Search.{strchr_next-found, before-found}
use sklaffkom.Libc.{strtol}
use sklaffkom.Records.Files.{Format}
use sklaffkom.Users.Lines.{line_of, user_text, user_line-text}
use sklaffkom.Users.Lookups.{get_user_entry, user_fields, rtrim}
use sklaffkom.Users.{UserEntry}

-- The numbers fit their C types, and the name has no newline and no space at its end.
pub record IsStored (ue : UserEntry) : Type 0 where
  pub num : IsInt ue.num
  pub last_session : IsLong ue.last_session
  pub name : Lacks b'\n' ue.name
  pub trimmed : rtrim ue.name ≡ ue.name

pub get_user_entry-line_of :
    (ue : UserEntry) (rest : Bytes)
    → IsStored ue
    → get_user_entry (line_of ue rest) ≡ some (some (ue, rest))
unfolding get_user_entry user_fields
get_user_entry-line_of ue rest h =
    let colon = λ (z : ℤ) (t : Bytes). strchr_next-print_int 58 z t refl refl in
    rw
      (
        strtol-print_int ue.num _ (IsInt-IsLong ue.num h.num) refl,
        to_int-IsInt ue.num h.num,
        colon ue.num _,
        colon ue.last_session _,
        strchr_next-found ue.name 10 rest h.name,
        before-found ue.name 10 rest h.name,
        atol-print_int ue.last_session _ h.last_session refl,
        h.trimmed,
      )
      refl

pub get_user_entry-end : get_user_entry [] ≡ some none
unfolding get_user_entry strtol
get_user_entry-end = refl

pub user_text-IsText : (ue : UserEntry) → IsStored ue → IsText (user_text ue)
user_text-IsText ue h =
    let (c, w, parts) = print_int-cons ue.num _ in
    let field =
      λ (z : ℤ) (t : Bytes) (k : Lacks 10 t). print_int-Lacks 10 z (58 ∷ t) refl refl (refl, k) in
    record {
      head = c;
      tail = w;
      parts = parts;
      lacks = field ue.num _ (field ue.last_session ue.name h.name);
    }

-- The lines of USER_FILE.
abbrev pub user_format : Format UserEntry
user_format = record {
  fetch = get_user_entry;
  text = user_text;
  Fits = IsStored;
  reads = λ e rest h.
      ap get_user_entry (sym (user_line-text e.num e.last_session e.name rest))
      ∙ get_user_entry-line_of e rest h;
  ends = get_user_entry-end;
  texts = user_text-IsText;
}
