-- ===== src/Active.antt =====
-- The file of the users who are logged in, ACTIVE_FILE, one line for each: `get_active_entry` of buf.c,
-- and `replace_active`, `set_avail`, `set_from`, `remove_active`, `check_active`, `user_is_active` and
-- `user_is_avail` of user.c. `none` is an access through NULL, of freed memory or of a variable that was
-- never set. That malloc fails is left out.
pub mod Codec
pub mod Changes
pub mod Entries
pub mod Results
use sklaffkom.Base.{
  ℕ, Bool, true, false, ◌&&◌, Option, none, some, [], ◌∷◌, ◌++◌, Bytes, take, codes, if◌then◌else◌,
  ◌>>=◌, ℤ, pos, negsuc, failure, eqb_ℤ,
}
use sklaffkom.Confs.{before_entry}
use sklaffkom.Libc.{strchr_next, before, strtol, atol, atoi, to_int, print_int}
use sklaffkom.RawIo.{Calls, open_file, read_file, write_file, close_file}
use sklaffkom.Records.{Reads, read_until}

-- struct ACTIVE_ENTRY
pub record ActiveEntry : Type 0 where
  pub user : ℤ
  pub pid : ℤ
  pub login_time : ℤ
  pub avail : ℤ
  pub from : Bytes
  pub tty : Bytes

-- the fields behind the number of the user
unfoldable pub active_fields : ℤ → Bytes → Reads ActiveEntry
active_fields user buf = do
  pid ← strchr_next buf b':'
  login_time ← strchr_next pid b':'
  avail ← strchr_next login_time b':'
  from ← strchr_next avail b':'
  tty ← strchr_next from b':'
  behind ← strchr_next tty b':'
  rest ← strchr_next buf b'\n'
  some (
      some (
        record {
          user = user;
          pid = atoi pid;
          login_time = atol login_time;
          avail = atoi avail;
          from = before from b':';
          tty = before tty b':';
        },
        rest,
      ))

abbrev pub active_at : Bytes → Option (ℤ × Bytes) → Reads ActiveEntry
active_at buf none = some none
active_at buf (some (n, str)) = active_fields (to_int n) buf

unfoldable pub get_active_entry : Bytes → Reads ActiveEntry
get_active_entry buf = active_at buf (strtol buf)

-- the line that replace_active prints, before `tail`
abbrev pub active_line : ActiveEntry → Bytes → Bytes
active_line ae tail = print_int ae.user (
    b':'
    ∷ print_int ae.pid (
        b':'
        ∷ print_int ae.login_time (
            b':'
            ∷ print_int ae.avail
                (b':' ∷ (ae.from ++ b':' ∷ (ae.tty ++ (codes ":dum:dum:dum" ++ b'\n' ∷ tail)))))))

abbrev pub is_user : ℤ → ActiveEntry → Bool
is_user uid ae = eqb_ℤ ae.user uid

abbrev pub find_active : ℤ → Bytes → Reads ActiveEntry
find_active uid = read_until get_active_entry (is_user uid)

-- replace_active behind its loop. Behind the last entry `tae.user` is 0: for user 0 the code goes on
-- with NULL, and for any other the new buffer is empty.
abbrev pub active_replaced : ActiveEntry → Bytes → Option (ActiveEntry × Bytes) → Option Bytes
active_replaced ae buf none = if eqb_ℤ ae.user (pos 0) then none else some []
active_replaced ae buf (some (tae, rest)) = some (before_entry buf rest ++ active_line ae rest)

unfoldable pub replace_active : ActiveEntry → Bytes → Option Bytes
replace_active ae buf = find_active ae.user buf >>= active_replaced ae buf

-- behind write_file: only -1 is a failure, and the outcome of close_file is reported and not returned
abbrev pub active_written : ℤ × Bytes → ℤ × Bytes
active_written (negsuc n, file) = (failure, file)
active_written (pos n, file) = (pos 0, file)

-- set_avail and set_from behind the loop. Without an entry of the user `ae.user` is 0 and the rest is
-- left from the last entry: replace_active goes on with NULL, or with those of another user.
abbrev pub active_changed :
    Calls → (ActiveEntry → ActiveEntry) → Bytes → Option (ActiveEntry × Bytes) → Option (ℤ × Bytes)
active_changed calls change buf none = none
active_changed calls change buf (some (ae, rest)) = do
  nbuf ← replace_active (change ae) buf
  some (active_written (write_file calls nbuf buf))

-- the two functions, with the assignment to `ae`
unfoldable pub change_active : Calls → ℤ → (ActiveEntry → ActiveEntry) → Bytes → Option (ℤ × Bytes)
change_active calls uid change file =
    if open_file calls
    then elim (read_file calls file) [
      | none ↦ some (pos 0, file)
      | some buf ↦ find_active uid buf >>= active_changed calls change buf
    ]
    else some (pos 0, file)

abbrev pub set_avail : Calls → ℤ → ℤ → Bytes → Option (ℤ × Bytes)
set_avail calls uid value = change_active calls uid (λ ae. record ae { avail = value })

-- strlcpy into FROM_FIELD_LEN, 28 bytes
abbrev pub set_from : Calls → ℤ → Bytes → Bytes → Option (ℤ × Bytes)
set_from calls uid value = change_active calls uid (λ ae. record ae { from = take 27 value })

-- remove_active behind its loop; for user 0 NULL passes for an entry
abbrev pub removed_close : Calls → ℤ × Bytes → ℤ × Bytes
removed_close calls (negsuc n, file) = (failure, file)
removed_close calls (pos n, file) = if close_file calls then (pos 0, file) else (failure, file)

abbrev pub active_removed : Calls → ℤ → Bytes → Option (ActiveEntry × Bytes) → Option (ℤ × Bytes)
active_removed calls uid buf none =
    if eqb_ℤ uid (pos 0)
    then none
    else some (if close_file calls then (pos 0, buf) else (failure, buf))
active_removed calls uid buf (some (ae, rest)) =
    some (removed_close calls (write_file calls (before_entry buf rest ++ rest) buf))

unfoldable pub remove_active : Calls → ℤ → Bytes → Option (ℤ × Bytes)
remove_active calls uid file =
    if open_file calls
    then elim (read_file calls file) [
      | none ↦ some (failure, file)
      | some buf ↦ find_active uid buf >>= active_removed calls uid buf
    ]
    else some (failure, file)

abbrev pub entry_found : Option (ActiveEntry × Bytes) → Option ActiveEntry
entry_found none = none
entry_found (some (ae, rest)) = some ae

-- check_active: the entry, or NULL
unfoldable pub check_active : Calls → ℤ → Bytes → Option (Option ActiveEntry)
check_active calls uid file =
    if open_file calls
    then elim (read_file calls file) [
      | none ↦ some none
      | some buf ↦
          if close_file calls
          then (do found ← find_active uid buf; some (entry_found found))
          else some none
    ]
    else some none

abbrev pub is_found : Option (ActiveEntry × Bytes) → Bool
is_found none = false
is_found (some found) = true

-- user_is_active and user_is_avail, with the test of their loops; after a failed close_file the buffer
-- is freed and read all the same
unfoldable pub some_active : Calls → (ActiveEntry → Bool) → Bytes → Option Bool
some_active calls is file =
    if open_file calls
    then elim (read_file calls file) [
      | none ↦ some false
      | some buf ↦
          if close_file calls
          then (do found ← read_until get_active_entry is buf; some (is_found found))
          else none
    ]
    else some false

abbrev pub user_is_active : Calls → ℤ → Bytes → Option Bool
user_is_active calls uid = some_active calls (is_user uid)

abbrev pub user_is_avail : Calls → ℤ → Bytes → Option Bool
user_is_avail calls uid = some_active calls (λ ae. is_user uid ae && eqb_ℤ ae.avail (pos 0))
