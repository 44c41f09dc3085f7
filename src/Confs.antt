-- ===== src/Confs.antt =====
-- The user's `confs` file: one line `num:from-to,from-to,…` for each conference that the user is a
-- member of. `get_confs_entry` is in buf.c, the other functions in conf.c. `none` and `fault` stand
-- for the accesses through NULL or past the end of the buffer that the code makes on a malformed
-- file, and for a negative conference or text number.
pub mod Codec
pub mod Search
pub mod Lines
pub mod Replace
use sklaffkom.Base.{
  ℕ, zero, suc, ◌+◌, Bool, true, false, not, ◌&&◌, Option, none, some, List, [], ◌∷◌, ◌++◌, Bytes,
  length, take, reverse, ltb, ◌==◌, if◌then◌else◌, ◌>>=◌, ℤ, pos, negsuc, ◌-◌,
}
use sklaffkom.Intervals.{Interval, Intervals}
use sklaffkom.Libc.{strchr, strchr_next, before, atol, to_int, print_nat}

-- struct CONFS_ENTRY
pub record ConfsEntry : Type 0 where
  pub num : ℕ
  pub il : Intervals

abbrev pub natural : ℤ → Option ℕ
natural (pos n) = some n
natural (negsuc n) = none

-- `while (cse->il) { … }`: the intervals with commas between them, before `tail`
unfoldable pub print_intervals : Intervals → Bytes → Bytes
print_intervals [] tail = tail
print_intervals (x ∷ []) tail = print_nat x.from (b'-' ∷ print_nat x.to tail)
print_intervals (x ∷ y ∷ il) tail =
    print_nat x.from (b'-' ∷ print_nat x.to (b',' ∷ print_intervals (y ∷ il) tail))

unfoldable pub stringify_confs_struct : ConfsEntry → Bytes
stringify_confs_struct cse = print_nat cse.num (b':' ∷ print_intervals cse.il (b'\n' ∷ []))

-- `t2 && (t2 < t1)` for two places in one buffer, of which the longer rest is the earlier one;
-- the second argument is the place behind the comma
abbrev pub earlier_comma : Option Bytes → Option Bytes → Option Bytes
earlier_comma (some t1) (some t2) = if ltb (length t1) (suc (length t2)) then some t2 else none
earlier_comma _ _ = none

-- `buf` after its first comma, if that stands before its first newline
unfoldable pub next_comma : Bytes → Option Bytes
next_comma buf = earlier_comma (strchr buf b'\n') (strchr_next buf b',')

-- the two numbers of an interval, with `*t1 = ' '` at the first dash
unfoldable pub get_interval : Bytes → Option Interval
get_interval buf = do
  t1 ← strchr_next buf b'-'
  from ← natural (atol (before buf b'-' ++ b' ' ∷ t1))
  to ← natural (atol (b' ' ∷ t1))
  some (record { from = from; to = to })

abbrev pub starts_with_newline : Bytes → Bool
starts_with_newline [] = false
starts_with_newline (c ∷ cs) = c == b'\n'

-- the `for (;;)` loop; each round goes on behind a comma of the line
unfoldable pub get_intervals : ℕ → Bytes → Option Intervals
get_intervals zero buf = none
get_intervals (suc f) buf =
    let round = (do
      x ← get_interval buf
      il ← elim (next_comma buf) [ none ↦ some [] | some t2 ↦ get_intervals f t2 ]
      some (x ∷ il)) in
    if starts_with_newline buf then some [] else round

-- From the first colon back to the start of its line. A newline in the first byte of the buffer is
-- not looked at.
unfoldable pub scan_start : Bytes → Bytes → Bytes
scan_start start [] = start
scan_start start (c ∷ cs) =
    let further = scan_start (if c == b'\n' then cs else start) cs in
    if c == b':' then start else further

unfoldable pub line_start : Bytes → Bytes
unfolding scan_start
line_start [] = []
line_start (c ∷ cs) = if c == b':' then c ∷ cs else scan_start (c ∷ cs) cs

-- What a call of get_confs_entry does: it returns NULL and leaves `ce->num` alone, or it sets the
-- entry and returns the place behind the line, which is NULL if the line has no newline.
pub data Fetch : Type 0 where
  no_entry : Fetch
  entry : ConfsEntry → Option Bytes → Fetch
  fault : Fetch

abbrev pub fetched : Option ConfsEntry → Option Bytes → Fetch
fetched none rest = fault
fetched (some ce) rest = entry ce rest

unfoldable pub parse_confs_line : Bytes → Bytes → Option ConfsEntry
parse_confs_line start body = do
  num ← natural (to_int (atol start))
  il ← get_intervals (suc (length body)) body
  some (record { num = num; il = il })

-- the second argument is the place behind the first colon
abbrev pub entry_at : Bytes → Option Bytes → Fetch
entry_at buf none = no_entry
entry_at buf (some body) =
    fetched (parse_confs_line (line_start buf) body) (strchr_next (line_start buf) b'\n')

unfoldable pub get_confs_entry : Bytes → Fetch
get_confs_entry buf = entry_at buf (strchr_next buf b':')

-- Where the loop over the entries stops: at the conference, behind the last entry, or at a fault.
pub data Lookup : Type 0 where
  found : ConfsEntry → Option Bytes → Lookup
  missing : Lookup
  broken : Lookup

-- The test `cse.num == conf` after a call of get_confs_entry, with the next round of the loop. `seen`
-- says that `cse.num` has been set before: the test on a NULL result reads it, and it is not `conf`.
abbrev pub test_entry : ℕ → Bool → (Bytes → Lookup) → Fetch → Lookup
test_entry conf seen next no_entry = if seen then missing else broken
test_entry conf seen next fault = broken
test_entry conf seen next (entry cse none) = if cse.num == conf then found cse none else missing
test_entry conf seen next (entry cse (some rest)) =
    let further = next rest in if cse.num == conf then found cse (some rest) else further

-- `while (buf) { buf = get_confs_entry(buf, &cse); if (cse.num == conf) break; … }`
unfoldable pub find_entry : ℕ → ℕ → Bool → Bytes → Lookup
find_entry zero conf seen buf = broken
find_entry (suc f) conf seen buf =
    test_entry conf seen (find_entry f conf true) (get_confs_entry buf)

-- Each entry takes at least one byte of the buffer.
unfoldable pub find_confs : ℕ → Bytes → Lookup
find_confs conf buf = find_entry (suc (length buf)) conf false buf

-- From behind an entry back to the start of its line, over the bytes read so far in reverse. The
-- first byte of the buffer is not looked at: `tbuf > obuf`.
unfoldable pub drop_newlines : Bytes → Bytes
drop_newlines [] = []
drop_newlines (c ∷ []) = c ∷ []
drop_newlines (c ∷ d ∷ cs) = if c == b'\n' then drop_newlines (d ∷ cs) else c ∷ d ∷ cs

unfoldable pub drop_line : Bytes → Bytes
drop_line [] = []
drop_line (c ∷ []) = []
drop_line (c ∷ d ∷ cs) = if c == b'\n' then c ∷ d ∷ cs else drop_line (d ∷ cs)

-- the bytes of `buf` before `rest`, which is a later place in it
abbrev pub consumed : Bytes → Bytes → Bytes
consumed buf rest = take (length buf - length rest) buf

-- the bytes of `buf` before the line that ends just before `rest`
unfoldable pub before_entry : Bytes → Bytes → Bytes
before_entry buf rest = reverse (drop_line (drop_newlines (reverse (consumed buf rest))))

-- The assembly of the new bytes in `nbuf`, of strlen(buf) + LINE_LEN bytes with the NUL: `none` is a
-- strcat behind its end.
abbrev pub in_nbuf : Bytes → Bytes → Option Bytes
in_nbuf buf new = if ltb (length new) (length buf + 79) then some new else none

-- `tmpbuf`, a HUGE_LINE of 32768 bytes, is taken to hold the new line.
abbrev pub replaced : ConfsEntry → Bytes → Lookup → Option Bytes
replaced cse buf (found old none) = none
replaced cse buf (found old (some rest)) =
    in_nbuf buf (before_entry buf rest ++ (stringify_confs_struct cse ++ rest))
replaced cse buf missing = some []
replaced cse buf broken = none

unfoldable pub replace_confs : ConfsEntry → Bytes → Option Bytes
replace_confs cse buf = replaced cse buf (find_confs cse.num buf)
