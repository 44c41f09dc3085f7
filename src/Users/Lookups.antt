-- ===== src/Users/Lookups.antt =====
-- Looking users up in USER_FILE: `get_user_entry` of buf.c, `rtrim` of lib/rtrim.c, and `user_name`,
-- `last_session`, `user_uid` and `get_user_struct` of user.c. `none` is an access through NULL or the use
-- of what another entry left behind.
pub mod Codec
pub mod Results
use sklaffkom.Base.{
  ℕ, Bool, true, false, Option, none, some, List, [], ◌∷◌, ◌++◌, Bytes, reverse, ◌==◌,
  if◌then◌else◌, ◌>>=◌, ℤ, pos, negsuc, failure, eqb_ℤ,
}
use sklaffkom.Libc.{strchr_next, before, strtol, atol, to_int, same_string}
use sklaffkom.RawIo.{Calls, open_file, read_file, close_file}
use sklaffkom.Records.{Reads, read_until}
use sklaffkom.Users.{UserEntry}

-- the bytes from the last one on: spaces go, but the first byte of the string stays
unfoldable pub drop_blanks : Bytes → Bytes
drop_blanks [] = []
drop_blanks (c ∷ []) = c ∷ []
drop_blanks (c ∷ d ∷ s) = if c == b' ' then drop_blanks (d ∷ s) else c ∷ d ∷ s

unfoldable pub rtrim : Bytes → Bytes
rtrim s = reverse (drop_blanks (reverse s))

-- the fields behind the number
unfoldable pub user_fields : ℤ → Bytes → Reads UserEntry
user_fields num buf = do
  last_session ← strchr_next buf b':'
  name ← strchr_next last_session b':'
  rest ← strchr_next name b'\n'
  some (
      some (
        record { num = num; last_session = atol last_session; name = rtrim (before name b'\n') },
        rest,
      ))

abbrev pub user_at : Bytes → Option (ℤ × Bytes) → Reads UserEntry
user_at buf none = some none
user_at buf (some (n, str)) = user_fields (to_int n) buf

unfoldable pub get_user_entry : Bytes → Reads UserEntry
get_user_entry buf = user_at buf (strtol buf)

-- Behind the loop. At the end of the file get_user_entry has set the number to 0, and the rest is left
-- from before.
abbrev pub user_found : ℤ → Option (UserEntry × Bytes) → Option (Option UserEntry)
user_found uid none = if eqb_ℤ uid (pos 0) then none else some none
user_found uid (some (ue, rest)) = some (some ue)

abbrev pub has_number : ℤ → UserEntry → Bool
has_number uid ue = eqb_ℤ ue.num uid

-- get_user_struct: the entry, or NULL
unfoldable pub get_user_struct : Calls → ℤ → Bytes → Option (Option UserEntry)
get_user_struct calls uid file =
    if open_file calls
    then elim (read_file calls file) [
      | none ↦ some none
      | some buf ↦
          if close_file calls
          then read_until get_user_entry (has_number uid) buf >>= user_found uid
          else some none
    ]
    else some none

abbrev pub name_of : Option UserEntry → Option Bytes
name_of none = none
name_of (some ue) = some ue.name

-- user_name: the name, or NULL. `sysop` is the text of MSG_SYSOP in the language of the build. The search
-- is the one of get_user_struct.
unfoldable pub user_name : Bytes → Calls → ℤ → Bytes → Option (Option Bytes)
user_name sysop calls uid file =
    if eqb_ℤ uid (pos 0)
    then some none
    else if eqb_ℤ uid (negsuc 1)
    then some (some sysop)
    else do ue ← get_user_struct calls uid file; some (name_of ue)

abbrev pub session_of : Option UserEntry → ℤ
session_of none = pos 0
session_of (some ue) = ue.last_session

-- last_session: the time, 0 without an entry, or -1
unfoldable pub last_session : Calls → ℤ → Bytes → Option ℤ
last_session calls uid file =
    if open_file calls
    then elim (read_file calls file) [
      | none ↦ some failure
      | some buf ↦
          if close_file calls
          then (do
            found ← read_until get_user_entry (has_number uid) buf
            ue ← user_found uid found
            some (session_of ue))
          else some failure
    ]
    else some failure

abbrev pub uid_of : Option (UserEntry × Bytes) → ℤ
uid_of none = failure
uid_of (some (ue, rest)) = ue.num

-- user_uid: the number of the first user of the name, or -1
unfoldable pub user_uid : Calls → Bytes → Bytes → Option ℤ
user_uid calls name file =
    if open_file calls
    then elim (read_file calls file) [
      | none ↦ some failure
      | some buf ↦
          if close_file calls
          then (do
            found ← read_until get_user_entry (λ ue. same_string name ue.name) buf
            some (uid_of found))
          else some failure
    ]
    else some failure
