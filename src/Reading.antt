-- ===== src/Reading.antt =====
-- Which texts the user has read: `mark_as_read`, `check_if_read` and `mark_as_unread` of text.c,
-- `num_unread` and `member_of` of conf.c. Each opens the user's `confs` file, reads it, looks for the
-- entry of the conference, and rewrites the file if the entry changes. The result is the return
-- value, with the bytes of the file after the call where the function can write; `none` is an access
-- through a null pointer, of a variable that was never set, or behind a buffer. That malloc fails is left out.
pub mod Spec
pub mod Bounds
pub mod Room
pub mod Marks
pub mod Refines
pub mod Counts
pub mod Undo
pub mod Listed
use sklaffkom.Base.{
  ℕ, zero, suc, length, Bool, true, false, Option, none, some, Bytes, ◌==◌, if◌then◌else◌, ◌>>=◌, ℤ,
  pos, negsuc, failure,
}
use sklaffkom.Confs.{
  ConfsEntry, Lookup, found, missing, broken, find_confs, replace_confs, Fetch, no_entry, entry,
  fault, get_confs_entry,
}
use sklaffkom.Intervals.Counting.{subtract_lengths}
use sklaffkom.Intervals.{covers, mark, unmark}
use sklaffkom.RawIo.{Calls, open_file, read_file, write_file, close_file}

-- what is left after write_file: `critical()` and `non_critical()` only hold signals back
abbrev pub stored : Calls → ℤ × Bytes → ℤ × Bytes
stored calls (negsuc n, file) = (failure, file)
stored calls (pos n, file) = if close_file calls then (pos 1, file) else (failure, file)

abbrev pub unchanged : Calls → Bytes → ℤ × Bytes
unchanged calls file = if close_file calls then (pos 0, file) else (failure, file)

-- mark_as_read with the file in memory and the entry looked up
abbrev pub mark_found : Calls → ℕ → Bytes → Lookup → Option (ℤ × Bytes)
mark_found calls text buf missing = some (unchanged calls buf)
mark_found calls text buf broken = none
mark_found calls text buf (found cse rest) =
    if covers text cse.il then some (unchanged calls buf) else do
      il ← mark text cse.il
      nbuf ← replace_confs (record cse { il = il }) buf
      some (stored calls (write_file calls nbuf buf))

unfoldable pub mark_as_read : Calls → ℕ → ℕ → Bytes → Option (ℤ × Bytes)
mark_as_read calls text conf file =
    if open_file calls
    then elim (read_file calls file) [
      | none ↦ some (failure, file)
      | some buf ↦ mark_found calls text buf (find_confs conf buf)
    ]
    else some (failure, file)

abbrev pub unmark_found : Calls → ℕ → Bytes → Lookup → Option (ℤ × Bytes)
unmark_found calls text buf missing = some (unchanged calls buf)
unmark_found calls text buf broken = none
unmark_found calls text buf (found cse rest) =
    if covers text cse.il
    then (do
      nbuf ← replace_confs (record cse { il = unmark text cse.il }) buf
      some (stored calls (write_file calls nbuf buf)))
    else some (unchanged calls buf)

unfoldable pub mark_as_unread : Calls → ℕ → ℕ → Bytes → Option (ℤ × Bytes)
mark_as_unread calls text conf file =
    if open_file calls
    then elim (read_file calls file) [
      | none ↦ some (failure, file)
      | some buf ↦ unmark_found calls text buf (find_confs conf buf)
    ]
    else some (failure, file)

abbrev pub check_found : ℕ → Lookup → Option ℤ
check_found text missing = some (pos 0)
check_found text broken = none
check_found text (found cse rest) = some (if covers text cse.il then pos 1 else pos 0)

unfoldable pub check_if_read : Calls → ℕ → ℕ → Bytes → Option ℤ
check_if_read calls text conf file =
    if open_file calls
    then elim (read_file calls file) [
      | none ↦ some failure
      | some buf ↦ if close_file calls then check_found text (find_confs conf buf) else some failure
    ]
    else some failure

abbrev pub count_found : ℕ → Lookup → Option ℤ
count_found last missing = some (pos 0)
count_found last broken = none
count_found last (found cse rest) = some (subtract_lengths (pos last) cse.il)

-- The loop of num_unread tests the number in its body, or behind it when the last line has no
-- newline: it finds the same entry as `find_confs`.
unfoldable pub num_unread : Calls → ℕ → ℕ → Bytes → Option ℤ
num_unread calls conf last file =
    if open_file calls
    then elim (read_file calls file) [
      | none ↦ some failure
      | some buf ↦ if close_file calls then count_found last (find_confs conf buf) else some failure
    ]
    else some failure

-- one round of the loop of member_of: a line without a newline ends it before its number is tested
abbrev pub test_member : ℕ → (Bytes → Option ℤ) → Fetch → Option ℤ
test_member conf next no_entry = some (pos 0)
test_member conf next fault = none
test_member conf next (entry cse none) = some (pos 0)
test_member conf next (entry cse (some rest)) =
    let further = next rest in if cse.num == conf then some (pos 1) else further

unfoldable pub member_loop : ℕ → ℕ → Bytes → Option ℤ
member_loop zero conf buf = none
member_loop (suc f) conf buf = test_member conf (member_loop f conf) (get_confs_entry buf)

unfoldable pub member_of : Calls → ℕ → Bytes → Option ℤ
member_of calls conf file =
    if open_file calls
    then elim (read_file calls file) [
      | none ↦ some failure
      | some buf ↦
          if close_file calls then member_loop (suc (length buf)) conf buf else some failure
    ]
    else some failure
