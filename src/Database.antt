-- ===== src/Database.antt =====
-- The conference database of conf.c, the file CONF_FILE with one line for each conference:
-- `get_conf_entry` of buf.c, and `stringify_conf_struct`, `replace_conf`, `conf_store_entry`,
-- `get_conf_struct`, `is_conf_creator`, `last_text`, `first_text` and `count_existing_texts` of conf.c.
-- `none` is a read through NULL, or a write behind the buffer of replace_conf. That malloc fails is left out.
pub mod Codec
pub mod Search
pub mod Store
pub mod Lookups
use sklaffkom.Base.{
  ℕ, zero, suc, Bool, true, false, Option, none, some, [], ◌∷◌, ◌++◌, Bytes, length, take,
  if◌then◌else◌, ◌>>=◌, ltb, ◌+◌, ℤ, pos, negsuc, failure, eqb_ℤ,
}
use sklaffkom.Confs.{before_entry, in_nbuf}
use sklaffkom.Libc.{strchr_next, before, strtol, atol, atoi, to_int, print_int}
use sklaffkom.RawIo.{Calls, open_file, read_file, write_file, close_file}

-- struct CONF_ENTRY
pub record ConfEntry : Type 0 where
  pub num : ℤ
  pub last_text : ℤ
  pub creator : ℤ
  pub time : ℤ
  pub type : ℤ
  pub life : ℤ
  pub comconf : ℤ
  pub name : Bytes

-- The result of get_conf_entry: NULL, or the entry and the place behind its line.
abbrev pub Fetched : Type 0
Fetched = Option (ConfEntry × Bytes)

-- the seven fields behind the number
unfoldable pub conf_fields : ℤ → Bytes → Option Fetched
conf_fields num buf = do
  last_text ← strchr_next buf b':'
  creator ← strchr_next last_text b':'
  time ← strchr_next creator b':'
  type ← strchr_next time b':'
  life ← strchr_next type b':'
  comconf ← strchr_next life b':'
  name ← strchr_next comconf b':'
  rest ← strchr_next name b'\n'
  some (
      some (
        record {
          num = num;
          last_text = atol last_text;
          creator = atoi creator;
          time = atol time;
          type = atoi type;
          life = atoi life;
          comconf = atoi comconf;
          name = before name b'\n';
        },
        rest,
      ))

abbrev pub conf_at : Bytes → Option (ℤ × Bytes) → Option Fetched
conf_at buf none = some none
conf_at buf (some (n, str)) = conf_fields (to_int n) buf

unfoldable pub get_conf_entry : Bytes → Option Fetched
get_conf_entry buf = conf_at buf (strtol buf)

-- what sprintf prints, before `tail`
abbrev pub conf_line : ConfEntry → Bytes → Bytes
conf_line ce tail = print_int ce.num (
    b':'
    ∷ print_int ce.last_text (
        b':'
        ∷ print_int ce.creator (
            b':'
            ∷ print_int ce.time (
                b':'
                ∷ print_int ce.type (
                    b':'
                    ∷ print_int ce.life
                        (b':' ∷ print_int ce.comconf (b':' ∷ (ce.name ++ b'\n' ∷ tail))))))))

unfoldable pub stringify_conf_struct : ConfEntry → Bytes
stringify_conf_struct ce = conf_line ce []

-- one round of a loop over the entries; the loop ends at the number, or at NULL
abbrev pub test_conf : ℤ → (Bytes → Option Fetched) → Option Fetched → Option Fetched
test_conf conf next none = none
test_conf conf next (some none) = some none
test_conf conf next (some (some (ce, rest))) =
    let further = next rest in if eqb_ℤ ce.num conf then some (some (ce, rest)) else further

unfoldable pub find_loop : ℕ → ℤ → Bytes → Option Fetched
find_loop zero conf buf = none
find_loop (suc f) conf buf = test_conf conf (find_loop f conf) (get_conf_entry buf)

-- `while ((buf = get_conf_entry(buf, &ce))) if (ce.num == conf) …`; each entry takes a byte at least
unfoldable pub find_conf : ℤ → Bytes → Option Fetched
find_conf conf buf = find_loop (suc (length buf)) conf buf

-- snprintf into a LONG_LINE of 159 bytes
abbrev pub new_line : ConfEntry → Bytes
new_line ce = take 158 (stringify_conf_struct ce)

-- replace_conf behind the search; `some none` is NULL
abbrev pub conf_replaced : ConfEntry → Bytes → Fetched → Option (Option Bytes)
conf_replaced ce buf none = some none
conf_replaced ce buf (some (old, rest)) = do
  new ← in_nbuf buf (before_entry buf rest ++ (new_line ce ++ rest))
  some (some new)

unfoldable pub replace_conf : ConfEntry → Bytes → Option (Option Bytes)
replace_conf ce buf = find_conf ce.num buf >>= conf_replaced ce buf

-- conf_store_entry behind write_file: it takes 1 for a failure too
abbrev pub conf_written : Calls → ℤ × Bytes → ℤ × Bytes
conf_written calls (code, file) =
    if eqb_ℤ code (pos 0)
    then (if close_file calls then (pos 0, file) else (failure, file))
    else (failure, file)

abbrev pub conf_write : Calls → Bytes → Option Bytes → ℤ × Bytes
conf_write calls buf none = (failure, buf)
conf_write calls buf (some new) = conf_written calls (write_file calls new buf)

-- the return value, and the bytes of CONF_FILE after the call
unfoldable pub conf_store_entry : Calls → ConfEntry → Bytes → Option (ℤ × Bytes)
conf_store_entry calls ce file =
    if open_file calls
    then elim (read_file calls file) [
      | none ↦ some (failure, file)
      | some buf ↦ (do new ← replace_conf ce buf; some (conf_write calls buf new))
    ]
    else some (failure, file)

-- get_conf_struct behind the loop. At the end of the file get_conf_entry has set the number to 0, and
-- the other fields are left from before: `none` if that number was looked for.
abbrev pub struct_of : ℤ → Fetched → Option (Option ConfEntry)
struct_of num (some (ce, rest)) = some (some ce)
struct_of num none = if eqb_ℤ num (pos 0) then none else some none

unfoldable pub get_conf_struct : Calls → ℤ → Bytes → Option (Option ConfEntry)
get_conf_struct calls num file =
    if open_file calls
    then elim (read_file calls file) [
      | none ↦ some none
      | some buf ↦ if close_file calls then find_conf num buf >>= struct_of num else some none
    ]
    else some none

abbrev pub is_creator : ℤ → Option ConfEntry → Bool
is_creator u_num none = false
is_creator u_num (some ce) = eqb_ℤ u_num ce.creator

unfoldable pub is_conf_creator : Calls → ℤ → ℤ → Bytes → Option Bool
is_conf_creator calls u_num c_num file =
    if eqb_ℤ c_num (pos 0)
    then some true
    else do ce ← get_conf_struct calls c_num file; some (is_creator u_num ce)

abbrev pub last_of : Fetched → ℤ
last_of none = failure
last_of (some (ce, rest)) = ce.last_text

-- the part of last_text for the conferences
unfoldable pub last_in_database : Calls → ℤ → Bytes → Option ℤ
last_in_database calls conf file =
    if open_file calls
    then elim (read_file calls file) [
      | none ↦ some failure
      | some buf ↦
          if close_file calls
          then (do fetched ← find_conf conf buf; some (last_of fetched))
          else some failure
    ]
    else some failure

-- the first entry of the mailbox file; without one the conferences are searched
abbrev pub last_in_mailbox : Option ℤ → Option Fetched → Option ℤ
last_in_mailbox next none = none
last_in_mailbox next (some none) = next
last_in_mailbox next (some (some (ce, rest))) = some ce.last_text

-- last_text: the outcomes of the calls on the mailbox file and its bytes, and the same of CONF_FILE
unfoldable pub last_text : Calls → Bytes → Calls → Bytes → ℤ → Option ℤ
last_text mbox mailbox calls file conf =
    let database = last_in_database calls conf file in
    if eqb_ℤ conf (pos 0)
    then (if open_file mbox
        then elim (read_file mbox mailbox) [
          | none ↦ some failure
          | some buf ↦
              if close_file mbox
              then last_in_mailbox database (get_conf_entry buf)
              else some failure
        ]
        else some failure)
    else database
