-- ===== src/Mail/Headers.antt =====
-- mailbody.c: the header fields of a message or of a part. A string of header fields is taken apart at
-- its line feeds first; the source does that while it goes along.
use sklaffkom.Base.{
  ℕ, Bool, false, ◌&&◌, ◌||◌, Option, none, some, List, [], ◌∷◌, ◌++◌, Bytes, codes, length, drop,
  is_empty, ◌==◌, if◌then◌else◌, ◌>>=◌,
}
use sklaffkom.Libc.{before, skip_spaces, isspace, tolower, strchr}
use sklaffkom.Mail.{ci_strstr, trim}

abbrev pub add_to_line : ℕ → List Bytes → List Bytes
add_to_line c [] = (c ∷ []) ∷ []
add_to_line c (l ∷ ls) = (c ∷ l) ∷ ls

-- the lines of a string, without their line feeds
unfoldable pub split_lines : Bytes → List Bytes
split_lines [] = [] ∷ []
split_lines (c ∷ s) =
    let rest = split_lines s in if c == b'\n' then [] ∷ rest else add_to_line c rest

-- a line without one CR at its end
unfoldable pub drop_cr : Bytes → Bytes
drop_cr [] = []
drop_cr (c ∷ s) = if c == b'\r' && is_empty s then [] else c ∷ drop_cr s

-- what stands behind the name and the colon, if the line is a field of that name
unfoldable pub behind_name : Bytes → Bytes → Option Bytes
behind_name [] name = none
behind_name (c ∷ s) [] = if c == b':' then some s else none
behind_name (c ∷ s) (k ∷ name) = if tolower c == tolower k then behind_name s name else none

abbrev pub is_blank : ℕ → Bool
is_blank c = c == b' ' || c == b'\t'

unfoldable pub skip_blanks : Bytes → Bytes
skip_blanks [] = []
skip_blanks (c ∷ s) = if is_blank c then skip_blanks s else c ∷ s

abbrev pub starts_blank : Bytes → Bool
starts_blank [] = false
starts_blank (c ∷ s) = is_blank c

-- the lines that continue a field, each behind one space
unfoldable pub continued : List Bytes → Bytes
unfolding drop_cr skip_blanks
continued [] = []
continued (l ∷ ls) =
    let rest = continued ls in if starts_blank l then b' ' ∷ drop_cr (skip_blanks l) ++ rest else []

-- the loop over the lines; an empty line ends the header
unfoldable pub find_field : Bytes → List Bytes → Option Bytes
unfolding drop_cr behind_name continued
find_field name [] = none
find_field name (l ∷ ls) =
    let further = find_field name ls in
    if is_empty (drop_cr l)
    then none
    else elim (behind_name (drop_cr l) name) [ none ↦ further | some v ↦ some (v ++ continued ls) ]

unfoldable pub trimmed_value : Option Bytes → Option Bytes
unfolding trim
trimmed_value none = none
trimmed_value (some v) = some (trim v)

unfoldable pub header_value : Bytes → Bytes → Option Bytes
unfolding split_lines find_field trim
header_value headers name = trimmed_value (find_field name (split_lines headers))

-- an unquoted value ends at a semicolon or at white space
unfoldable pub token : Bytes → Bytes
token [] = []
token (c ∷ s) = if c == b';' || isspace c then [] else c ∷ token s

-- the text before a closing quotation mark; without one there is no value
unfoldable pub quoted_value : Bytes → Option Bytes
unfolding strchr before
quoted_value s = elim (strchr s b'"') [ none ↦ none | some end ↦ some (before s b'"') ]

unfoldable pub value_text : Bytes → Option Bytes
unfolding token quoted_value
value_text [] = some []
value_text (c ∷ s) = if c == b'"' then quoted_value s else some (token (c ∷ s))

unfoldable pub behind_equals : Bytes → Option Bytes
unfolding skip_spaces value_text
behind_equals [] = none
behind_equals (c ∷ s) = if c == b'=' then value_text (skip_spaces s) else none

-- the value of a parameter of a field; `none` where there is no field or no such parameter
unfoldable pub param_value : Option Bytes → Bytes → Option Bytes
unfolding ci_strstr skip_spaces behind_equals
param_value field name = do
  s ← field
  p ← ci_strstr s name
  behind_equals (skip_spaces (drop (length name) p))

-- struct part; `body_len` is the length of the list
pub record Part : Type 0 where
  pub ctype : Bytes
  pub charset : Bytes
  pub cte : Bytes
  pub body : Bytes

abbrev pub or_text : Option Bytes → Bytes → Bytes
or_text none s = s
or_text (some t) s = t

-- the type before the first semicolon
unfoldable pub type_of : Bytes → Bytes
unfolding trim before
type_of ct = trim (before ct b';')

unfoldable pub ctype_of : Option Bytes → Bytes
unfolding trim before
ctype_of none = codes "text/plain"
ctype_of (some ct) = type_of ct

unfoldable pub parse_part_headers : Bytes → Part
unfolding header_value param_value trim before
parse_part_headers headers =
    let ct = header_value headers (codes "Content-Type") in
    let cte = header_value headers (codes "Content-Transfer-Encoding") in
    record {
      ctype = ctype_of ct;
      charset = or_text (param_value ct (codes "charset")) (codes "utf-8");
      cte = or_text cte (codes "7bit");
      body = [];
    }
