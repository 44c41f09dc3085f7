-- ===== src/Flags.antt =====
-- flag.c: the flags of a user, as the program holds them and as the text in the user's sklaffrc.
-- IBOL_LOGOUT_COUNT is 0, as sklaff.h defines it.
pub mod Strings
pub mod Lines
pub mod RoundTrip
pub mod Turning
pub mod OneCharset
pub mod Unique
use sklaffkom.Base.{
  ℕ, zero, suc, [], ◌∷◌, ◌++◌, List, Bytes, codes, length, leb, Bool, true, false, Option, none,
  some, if◌then◌else◌, ◌>>=◌, ℤ, pos, negsuc, failure,
}
use sklaffkom.Libc.{print_int, strstr, strchr_next, atoi}

-- the global variables of the flags
pub record Flags : Type 0 where
  pub say : ℤ
  pub shout : ℤ
  pub present : ℤ
  pub ibm : ℤ
  pub iso8859 : ℤ
  pub mac : ℤ
  pub subject_change : ℤ
  pub end_default : ℤ
  pub space : ℤ
  pub copy : ℤ
  pub author : ℤ
  pub date : ℤ
  pub beep : ℤ
  pub clear : ℤ
  pub header : ℤ
  pub special : ℤ
  pub presbeep : ℤ
  pub old_who : ℤ
  pub ansi_output : ℤ
  pub utf8 : ℤ
  pub force_sf7 : ℤ
  pub alternate_intro : ℤ
  pub rookie_mode : ℤ
  pub start_mailbox : ℤ
  pub ibol_logout : ℤ

-- the number behind the first `=` from `p` on; `none` where there is none
abbrev pub value_at : Bytes → Option ℤ
value_at p = do i ← strchr_next p b'='; some (atoi i)

abbrev pub value_or : ℤ → Option Bytes → Option ℤ
value_or default none = some default
value_or default (some p) = value_at p

-- one flag of set_flags
unfoldable pub flag_value : Bytes → Bytes → ℤ → Option ℤ
flag_value flags key default = value_or default (strstr flags key)

-- check_flag, which has the same search
unfoldable pub check_flag : Bytes → Bytes → Option ℤ
unfolding flag_value
check_flag flags flag = flag_value flags flag failure

abbrev pub default_flags : Flags
default_flags = record {
  say = pos 1;
  shout = pos 1;
  present = pos 1;
  ibm = pos 0;
  iso8859 = pos 0;
  mac = pos 0;
  subject_change = pos 1;
  end_default = pos 0;
  space = pos 0;
  copy = pos 1;
  author = pos 0;
  date = pos 0;
  beep = pos 1;
  clear = pos 0;
  header = pos 0;
  special = pos 0;
  presbeep = pos 0;
  old_who = pos 0;
  ansi_output = pos 0;
  utf8 = pos 0;
  force_sf7 = pos 0;
  alternate_intro = pos 0;
  rookie_mode = pos 1;
  start_mailbox = pos 0;
  ibol_logout = pos 0;
}

unfoldable pub read_flags : Bytes → Option Flags
read_flags flags = do
  shout ← flag_value flags (codes "shout") (pos 1)
  say ← flag_value flags (codes "say") (pos 1)
  present ← flag_value flags (codes "present") (pos 1)
  ibm ← flag_value flags (codes "ibm") (pos 0)
  iso8859 ← flag_value flags (codes "iso8859") (pos 0)
  mac ← flag_value flags (codes "mac") (pos 0)
  subject_change ← flag_value flags (codes "subject_change") (pos 1)
  end_default ← flag_value flags (codes "end_default") (pos 0)
  space ← flag_value flags (codes "space") (pos 0)
  copy ← flag_value flags (codes "copy") (pos 1)
  author ← flag_value flags (codes "author") (pos 0)
  date ← flag_value flags (codes "date") (pos 0)
  beep ← flag_value flags (codes "beep") (pos 1)
  clear ← flag_value flags (codes "clear") (pos 0)
  header ← flag_value flags (codes "header") (pos 0)
  presbeep ← flag_value flags (codes "presbeep") (pos 0)
  special ← flag_value flags (codes "strip") (pos 0)
  old_who ← flag_value flags (codes "oldwho") (pos 0)
  ansi_output ← flag_value flags (codes "ansi") (pos 0)
  utf8 ← flag_value flags (codes "utf8") (pos 0)
  force_sf7 ← flag_value flags (codes "force_sf7") (pos 0)
  alternate_intro ← flag_value flags (codes "alternate_intro") (pos 0)
  rookie_mode ← flag_value flags (codes "rookie_mode") (pos 1)
  start_mailbox ← flag_value flags (codes "start_mailbox") (pos 0)
  ibol_logout ← flag_value flags (codes "ibol_logout") (pos 0)
  some (record {
    say = say;
    shout = shout;
    present = present;
    ibm = ibm;
    iso8859 = iso8859;
    mac = mac;
    subject_change = subject_change;
    end_default = end_default;
    space = space;
    copy = copy;
    author = author;
    date = date;
    beep = beep;
    clear = clear;
    header = header;
    special = special;
    presbeep = presbeep;
    old_who = old_who;
    ansi_output = ansi_output;
    utf8 = utf8;
    force_sf7 = force_sf7;
    alternate_intro = alternate_intro;
    rookie_mode = rookie_mode;
    start_mailbox = start_mailbox;
    ibol_logout = ibol_logout;
  })

-- set_flags: the flags that it leaves in the global variables
unfoldable pub set_flags : Bytes → Option Flags
set_flags [] = some default_flags
set_flags (c ∷ flags) = read_flags (c ∷ flags)

-- the names and the values of the format string of save_flags, a line for each
abbrev pub flag_lines : Flags → List (Bytes × ℤ)
flag_lines f =
    (codes "say", f.say)
    ∷ (codes "shout", f.shout)
    ∷ (codes "present", f.present)
    ∷ (codes "ibm", f.ibm)
    ∷ (codes "iso8859", f.iso8859)
    ∷ (codes "mac", f.mac)
    ∷ (codes "subject_change", f.subject_change)
    ∷ (codes "end_default", f.end_default)
    ∷ (codes "space", f.space)
    ∷ (codes "copy", f.copy)
    ∷ (codes "author", f.author)
    ∷ (codes "date", f.date)
    ∷ (codes "beep", f.beep)
    ∷ (codes "clear", f.clear)
    ∷ (codes "header", f.header)
    ∷ (codes "strip", f.special)
    ∷ (codes "presbeep", f.presbeep)
    ∷ (codes "oldwho", f.old_who)
    ∷ (codes "ansi", f.ansi_output)
    ∷ (codes "utf8", f.utf8)
    ∷ (codes "force_sf7", f.force_sf7)
    ∷ (codes "alternate_intro", f.alternate_intro)
    ∷ (codes "rookie_mode", f.rookie_mode)
    ∷ (codes "start_mailbox", f.start_mailbox)
    ∷ (codes "ibol_logout", f.ibol_logout)
    ∷ []

-- what `"name = %d\n"` prints, before what is printed next
abbrev pub print_line : Bytes → ℤ → Bytes → Bytes
print_line name value rest = name ++ b' ' ∷ b'=' ∷ b' ' ∷ print_int value (b'\n' ∷ rest)

unfoldable pub print_lines : List (Bytes × ℤ) → Bytes
print_lines [] = []
print_lines ((name, value) ∷ ls) = print_line name value (print_lines ls)

-- save_flags: the text that it writes into `rc->flags`, or -1 where it does not fit
unfoldable pub saved_flags : Flags → Option Bytes
unfolding print_lines
saved_flags f =
    if leb 400 (length (print_lines (flag_lines f)))
    then none
    else some (print_lines (flag_lines f))
