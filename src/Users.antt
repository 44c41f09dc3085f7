-- ===== src/Users.antt =====
-- USER_FILE, the file of all users with one line for each: `set_sklaff_user_name` and `realname_valid` of
-- user.c, and `stringify_user_struct`. `none` is too little fuel. That malloc fails is left out.
pub mod Lines
pub mod Scan
pub mod Renaming
pub mod Renamed
pub mod Lookups
use sklaffkom.Base.{
  ℕ, zero, suc, ◌+◌, Bool, true, false, not, ◌&&◌, ◌||◌, Option, none, some, [], ◌∷◌, ◌++◌, Bytes,
  length, ltb, leb, ◌==◌, if◌then◌else◌, ◌>>=◌, ℤ, pos, negsuc, failure, eqb_ℤ, ltb_ℤ, is_empty,
}
use sklaffkom.Libc.{strtol_errno, print_int, isspace}
use sklaffkom.RawIo.{Calls, open_file, read_file, write_file, close_file}

-- struct USER_ENTRY
pub record UserEntry : Type 0 where
  pub num : ℤ
  pub last_session : ℤ
  pub name : Bytes

-- what sprintf prints, before `tail`
abbrev pub user_line : ℤ → ℤ → Bytes → Bytes → Bytes
user_line num session name tail =
    print_int num (b':' ∷ print_int session (b':' ∷ (name ++ b'\n' ∷ tail)))

unfoldable pub stringify_user_struct : UserEntry → Bytes
stringify_user_struct ue = user_line ue.num ue.last_session ue.name []

-- strpbrk(name, ":\r\n")
abbrev pub has_mark : Bytes → Bool
has_mark [] = false
has_mark (c ∷ s) = c == b':' || c == b'\r' || c == b'\n' || has_mark s

-- the loop that sets `visible`
abbrev pub is_visible : Bytes → Bool
is_visible [] = false
is_visible (c ∷ s) = not (isspace c) || is_visible s

-- a name field has 80 bytes
unfoldable pub realname_valid : Bytes → Bool
realname_valid name =
    not (is_empty name) && ltb (length name) 80 && not (has_mark name) && is_visible name

-- a line with its newline, and what stands behind it
abbrev pub add_byte : ℕ → Bytes × Bytes → Bytes × Bytes
add_byte c (line, rest) = (c ∷ line, rest)

unfoldable pub split_line : Bytes → Bytes × Bytes
split_line [] = ([], [])
split_line (c ∷ s) =
    let further = split_line s in if c == b'\n' then (c ∷ [], s) else add_byte c further

-- what stands behind `<number>:` at the start
abbrev pub behind_colon : ℤ → Bytes → Option (ℤ × Bytes)
behind_colon n [] = none
behind_colon n (c ∷ s) = if c == b':' then some (n, s) else none

abbrev pub number_column : Option (ℤ × Bytes) → Option (ℤ × Bytes)
number_column none = none
number_column (some (n, endptr)) = behind_colon n endptr

abbrev pub if_uid : ℤ → Option (ℤ × Bytes) → Option Bytes
if_uid uid none = none
if_uid uid (some (n, session_start)) = if eqb_ℤ n uid then some session_start else none

-- the place behind the number, if the line is one of the user
abbrev pub session_start : ℤ → Bytes → Option Bytes
session_start uid line = if_uid uid (number_column (strtol_errno line))

-- the target: what stands before and behind its line, and its last session
pub record Target : Type 0 where
  pub before : Bytes
  pub behind : Bytes
  pub last_session : ℤ

-- `goto out`, or the number of matches and the target
abbrev pub Matches : Type 0
Matches = Option (ℕ × Option Target)

-- the first match: its session must be a number before a colon
abbrev pub first_match :
    (ℕ → Option Target → Option Matches) → Bytes → Bytes → Option (ℤ × Bytes) → Option Matches
first_match next pre rest none = some none
first_match next pre rest (some (session, p)) =
    next 1 (some (record { before = pre; behind = rest; last_session = session }))

-- the body of the loop, with the next round
abbrev pub test_line :
    (ℕ → Option Target → Option Matches)
    → ℕ
    → Option Target
    → Bytes
    → Bytes
    → Option Bytes
    → Option Matches
test_line next matches target pre rest none = next matches target
test_line next zero target pre rest (some start) =
    first_match next pre rest (number_column (strtol_errno start))
test_line next (suc n) target pre rest (some start) = next (suc (suc n)) target

-- `while (*line != '\0')`, with `pre` before `line`
unfoldable pub scan_users : ℕ → ℤ → Bytes → ℕ → Option Target → Bytes → Option Matches
scan_users zero uid pre matches target line = none
scan_users (suc f) uid pre matches target [] = some (some (matches, target))
scan_users (suc f) uid pre matches target (c ∷ s) =
    let parts = split_line (c ∷ s) in
    let next = λ (n : ℕ) (t : Option Target). scan_users f uid (pre ++ parts.0) n t parts.1 in
    test_line next matches target pre parts.1 (session_start uid (c ∷ s))

-- the outcome of the loop, with the new line printed into 512 bytes
abbrev pub new_users : ℤ → Bytes → Matches → Option Bytes
new_users uid name none = none
new_users uid name (some (matches, none)) = none
new_users uid name (some (matches, some t)) =
    if matches == 1 && ltb (length (user_line uid t.last_session name [])) 512
    then some (t.before ++ user_line uid t.last_session name t.behind)
    else none

-- behind write_file, which returns -1 for a failure, or 1 where ftruncate failed; then the label `out`
abbrev pub user_written : Calls → ℤ × Bytes → ℤ × Bytes
user_written calls (negsuc n, file) = (failure, file)
user_written calls (pos n, file) = if close_file calls then (pos 0, file) else (failure, file)

abbrev pub store_users : Calls → Bytes → Option Bytes → ℤ × Bytes
store_users calls buf none = (failure, buf)
store_users calls buf (some nbuf) = user_written calls (write_file calls nbuf buf)

unfoldable pub set_sklaff_user_name : Calls → ℤ → Bytes → Bytes → Option (ℤ × Bytes)
set_sklaff_user_name calls uid name file =
    if ltb_ℤ (pos 0) uid && realname_valid name
    then (if open_file calls
        then elim (read_file calls file) [
          | none ↦ some (failure, file)
          | some buf ↦ (do
            found ← scan_users (suc (length buf)) uid [] 0 none buf
            some (store_users calls buf (new_users uid name found)))
        ]
        else some (failure, file))
    else some (failure, file)
