-- ===== src/Names.antt =====
-- lib/sort_util.c: names in the order for searching, and letters in the order for sorting. A name is
-- a string in SF7, where six bytes other than the ASCII letters stand for letters.
pub mod Order
pub mod Letters
use sklaffkom.Base.{
  ℕ, Option, none, some, [], ◌∷◌, ◌++◌, Bytes, Bool, true, false, ◌==◌, if◌then◌else◌,
}
use sklaffkom.Libc.{strchr_next, before, strrchr_next, before_last}

-- `*p == '('`
abbrev pub opens_bracket : Bytes → Bool
opens_bracket [] = false
opens_bracket (c ∷ cs) = c == b'('

-- `sprintf(outstr, "%s %s", ptr + 1, instr)`, with instr cut off at ptr
abbrev pub swapped : Bytes → Bytes → Bytes
swapped last first = last ++ b' ' ∷ first

-- order_name with the places behind the first blank, and behind the first blank there
abbrev pub order_bracket : Bytes → Bytes → Option Bytes → Bytes
order_bracket instr rest none = instr
order_bracket instr rest (some first) = swapped first (before instr b' ' ++ b' ' ∷ before rest b' ')

abbrev pub order_found : Bytes → Option Bytes → Bytes
order_found instr none = instr
order_found instr (some rest) =
    if opens_bracket rest
    then order_bracket instr rest (strchr_next rest b' ')
    else swapped rest (before instr b' ')

unfoldable pub order_name : Bytes → Bytes
order_name instr = order_found instr (strchr_next instr b' ')

-- reorder_name with the places behind the last blank, and behind the last blank before that
abbrev pub reorder_bracket : Bytes → Bytes → Option Bytes → Bytes
reorder_bracket instr last none = instr
reorder_bracket instr last (some name) =
    swapped (name ++ b' ' ∷ last) (before_last (before_last instr b' ') b' ')

abbrev pub reorder_found : Bytes → Option Bytes → Bytes
reorder_found instr none = instr
reorder_found instr (some last) =
    if opens_bracket last
    then reorder_bracket instr last (strrchr_next (before_last instr b' ') b' ')
    else swapped last (before_last instr b' ')

unfoldable pub reorder_name : Bytes → Bytes
reorder_name instr = reorder_found instr (strrchr_next instr b' ')

-- one round of the loop of fake_string
abbrev pub fake : ℕ → ℕ
fake c =
    if c == b'}'
    then b'{'
    else if c == b'{'
    then b'|'
    else if c == b'|'
    then b'}'
    else if c == b']'
    then b'['
    else if c == b'['
    then b'\\'
    else if c == b'\\'
    then b']'
    else c

unfoldable pub fake_string : Bytes → Bytes
fake_string [] = []
fake_string (c ∷ string) = fake c ∷ fake_string string

-- one round of the loop of real_string
abbrev pub real : ℕ → ℕ
real c =
    if c == b'{'
    then b'}'
    else if c == b'|'
    then b'{'
    else if c == b'}'
    then b'|'
    else if c == b'['
    then b']'
    else if c == b'\\'
    then b'['
    else if c == b']'
    then b'\\'
    else c

unfoldable pub real_string : Bytes → Bytes
real_string [] = []
real_string (c ∷ string) = real c ∷ real_string string
