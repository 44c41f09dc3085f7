-- ===== src/Oneliners.antt =====
-- iboldb.c: the cache of InterBBS one-liners, one escaped record for each line. A file in which
-- nothing fails is written; `none` stands for the result -1. A field of a record is the string before
-- its NUL; the sizes of the fields, with the NUL, are those of `struct ibol_record`.
pub mod Fields
pub mod RoundTrip
use sklaffkom.Base.{
  is_empty, ℕ, zero, suc, ◌+◌, [], ◌∷◌, ◌++◌, Bytes, Bool, true, false, not, ◌&&◌, ◌||◌, Option,
  none, some, ◌==◌, leb, if◌then◌else◌, ◌>>=◌, length, ℤ, pos, negsuc,
}
use sklaffkom.Libc.{print_int, strtol, long_max, strtol_errno}

-- struct ibol_record
pub record IbolRecord : Type 0 where
  pub timestamp : ℤ
  pub msgid : Bytes
  pub author : Bytes
  pub source : Bytes
  pub text : Bytes

-- one round of the loop of write_escaped
abbrev pub escape : ℕ → Bytes → Bytes
escape c rest =
    if c == b'\\'
    then b'\\' ∷ b'\\' ∷ rest
    else if c == b':'
    then b'\\' ∷ b':' ∷ rest
    else if c == b'\n'
    then b'\\' ∷ b'n' ∷ rest
    else if c == 13
    then b'\\' ∷ b'r' ∷ rest
    else if c == 9
    then b'\\' ∷ b't' ∷ rest
    else c ∷ rest

-- what is written, before what is written next
unfoldable pub write_escaped : Bytes → Bytes → Bytes
write_escaped [] rest = rest
write_escaped (c ∷ s) rest = escape c (write_escaped s rest)

unfoldable pub ibol_db_write_record : IbolRecord → Bytes
ibol_db_write_record r = print_int r.timestamp (
    b':'
    ∷ write_escaped r.msgid (
        b':'
        ∷ write_escaped r.author
            (b':' ∷ write_escaped r.source (b':' ∷ write_escaped r.text (b'\n' ∷ [])))))

-- `dst` before its NUL; `used` is its length
abbrev pub append_decoded : ℕ → Bytes → ℕ → Option Bytes
append_decoded dstsz dst ch = if leb dstsz (length dst + 1) then none else some (dst ++ ch ∷ [])

abbrev pub ends_line : ℕ → Bool
ends_line c = c == b'\n' || c == 13

-- the `switch (*p)` behind a backslash: the byte that it stands for, or the default
abbrev pub unescape : ℕ → Option ℕ
unescape c =
    if c == b'n'
    then some b'\n'
    else if c == b'r'
    then some 13
    else if c == b't'
    then some 9
    else if c == b':'
    then some b':'
    else if c == b'\\'
    then some b'\\'
    else none

abbrev pub append_escape : ℕ → Bytes → ℕ → Option ℕ → Option Bytes
append_escape dstsz dst c (some ch) = append_decoded dstsz dst ch
append_escape dstsz dst c none = do
  more ← append_decoded dstsz dst b'\\'
  append_decoded dstsz more c

-- the end of the line: a field other than the last one must end in a colon
abbrev pub end_field : Bool → Bytes → Bytes → Option (Bytes × Bytes)
end_field final dst p = if final then some (dst, p) else none

-- parse_decoded_field: the decoded field behind `dst`, and the place where the next one starts
unfoldable pub parse_decoded_field : Bool → ℕ → Bytes → Bytes → Option (Bytes × Bytes)
parse_decoded_field final dstsz [] dst = end_field final dst []
parse_decoded_field final dstsz (c ∷ []) dst =
    if ends_line c
    then end_field final dst (c ∷ [])
    else if not final && c == b':'
    then some (dst, [])
    else if c == b'\\'
    then none
    else (do more ← append_decoded dstsz dst c; end_field final more [])
parse_decoded_field final dstsz (c ∷ e ∷ p) dst =
    let next = parse_decoded_field final dstsz (e ∷ p) in
    let behind = parse_decoded_field final dstsz p in
    if ends_line c
    then end_field final dst (c ∷ e ∷ p)
    else if not final && c == b':'
    then some (dst, e ∷ p)
    else if c == b'\\'
    then (if ends_line e then none else append_escape dstsz dst e (unescape e) >>= behind)
    else append_decoded dstsz dst c >>= next

-- what strtoll gave for `stamp`: all of it is a number that is not negative
abbrev pub stamp_value : ℤ × Bytes → Option ℤ
stamp_value (pos n, []) = some (pos n)
stamp_value _ = none

-- a record with an empty MSGID is refused
abbrev pub with_msgid : IbolRecord → Option IbolRecord
with_msgid r = if is_empty r.msgid then none else some r

-- the five fields of a line, with the sizes of `stamp` and of the fields of the record
unfoldable pub ibol_db_parse_line : Bytes → Option IbolRecord
ibol_db_parse_line line = do
  stamp ← parse_decoded_field false 64 line []
  timestamp ← strtol_errno stamp.0 >>= stamp_value
  msgid ← parse_decoded_field false 256 stamp.1 []
  author ← parse_decoded_field false 128 msgid.1 []
  source ← parse_decoded_field false 256 author.1 []
  text ← parse_decoded_field true 4096 source.1 []
  with_msgid (record {
    timestamp = timestamp;
    msgid = msgid.0;
    author = author.0;
    source = source.0;
    text = text.0;
  })
