-- ===== src/Sklaffrc.antt =====
-- user.c: the file sklaffrc of a user, which holds a text under each of some headings. read_sklaffrc
-- reads the file of the whole system first and the user's behind it; write_sklaffrc writes the user's.
-- The directory of the user is left out, and so is that malloc fails.
pub mod Steps
pub mod RoundTrip
use sklaffkom.Base.{
  ℕ, zero, suc, ◌+◌, ◌-◌, Bool, true, false, ◌&&◌, ◌||◌, Option, none, some, List, [], ◌∷◌, ◌++◌,
  Bytes, codes, length, drop, reverse, is_empty, ltb, leb, ◌==◌, if◌then◌else◌, ◌>>=◌, ℤ, pos,
  negsuc,
}
use sklaffkom.Libc.{same_string, atol}

-- the headings of headptr; each but numlines has a field of struct SKLAFFRC
pub data Heading : Type 0 where
  adress postnr ort tele1 tele2 tele3 org note editor email1 email2 flags paid login timeout paydate
        sig url numlines blocklist :
      Heading

abbrev pub heading_name : Heading → Bytes
heading_name adress = codes "adress"
heading_name postnr = codes "postnr"
heading_name ort = codes "ort"
heading_name tele1 = codes "tele1"
heading_name tele2 = codes "tele2"
heading_name tele3 = codes "tele3"
heading_name org = codes "org"
heading_name note = codes "note"
heading_name editor = codes "editor"
heading_name email1 = codes "email1"
heading_name email2 = codes "email2"
heading_name flags = codes "flags"
heading_name paid = codes "paid"
heading_name login = codes "login"
heading_name timeout = codes "timeout"
heading_name paydate = codes "paydate"
heading_name sig = codes "sig"
heading_name url = codes "url"
heading_name numlines = codes "Numlines"
heading_name blocklist = codes "blocklist"

abbrev pub headings : List Heading
headings =
    adress ∷ postnr ∷ ort ∷ tele1 ∷ tele2 ∷ tele3 ∷ org ∷ note ∷ editor ∷ email1 ∷ email2 ∷ flags
    ∷ paid ∷ login ∷ timeout ∷ paydate ∷ sig ∷ url ∷ numlines ∷ blocklist ∷ []

abbrev pub same_heading : Heading → Heading → Bool
same_heading h k = same_string (heading_name h) (heading_name k)

-- the size of the field, the NUL included; of numlines, that of `entry`
abbrev pub field_size : Heading → ℕ
field_size note = 4096
field_size sig = 4096
field_size login = 4096
field_size blocklist = 4096
field_size numlines = 4096
field_size flags = 400
field_size h = 80

abbrev pub find_heading : Bytes → List Heading → Option Heading
find_heading name [] = none
find_heading name (h ∷ hs) =
    if same_string (heading_name h) name then some h else find_heading name hs

-- struct SKLAFFRC, by the headings of its fields, and the global Numlines
pub record Settings : Type 0 where
  pub field : Heading → Bytes
  pub lines : ℤ

-- the tests on Numlines, which strtol reads
abbrev pub sane : ℤ → ℤ → ℤ
sane old (pos v) = if leb 10 v && leb v 200 then pos v else old
sane old (negsuc v) = old

abbrev pub set_field : Heading → Bytes → (Heading → Bytes) → Heading → Bytes
set_field h entry field k = if same_heading h k then entry else field k

-- the copies of `entry`; `none` where it is too long for its field
unfoldable pub store_entry : Heading → Bytes → Settings → Option Settings
unfolding atol
store_entry h entry rc =
    if same_heading h numlines
    then some (record { field = rc.field; lines = sane rc.lines (atol entry) })
    else if ltb (length entry) (field_size h)
    then some (record { field = set_field h entry rc.field; lines = rc.lines })
    else none

-- The loop over a file. `since` is what lies between startptr and ptr, from its last byte to its
-- first, and `heading` is headptr[i]. ScanState 3 lasts no longer than a round.
pub data ScanState : Type 0 where
  outside opened in_heading after_heading after_line in_text : ScanState

pub record Scan : Type 0 where
  pub state : ScanState
  pub heading : Option Heading
  pub since : Bytes
  pub lastchar : ℕ
  pub lasttwo : ℕ
  pub rc : Settings

abbrev pub in_state : ScanState → Bytes → Scan → Scan
in_state state since st = record {
  state = state;
  heading = st.heading;
  since = since;
  lastchar = st.lastchar;
  lasttwo = st.lasttwo;
  rc = st.rc;
}

-- an unknown heading is only reported
abbrev pub heading_found : Option Heading → Scan → Scan
heading_found none st = in_state outside st.since st
heading_found (some h) st = record {
  state = after_heading;
  heading = some h;
  since = st.since;
  lastchar = st.lastchar;
  lasttwo = st.lasttwo;
  rc = st.rc;
}

abbrev pub with_rc : Scan → Settings → Option Scan
with_rc st rc = some (record {
  state = st.state;
  heading = st.heading;
  since = st.since;
  lastchar = st.lastchar;
  lasttwo = st.lasttwo;
  rc = rc;
})

-- the heading that ends at a `]`; `none` where it does not fit into `entry`
unfoldable pub close_heading : Scan → Option Scan
close_heading st =
    if ltb (length st.since) 4096
    then some (heading_found (find_heading (reverse st.since) headings) st)
    else none

-- what a round does before it looks for a `[`
unfoldable pub before_mark : ScanState → ℕ → Scan → Option Scan
unfolding close_heading
before_mark outside c st = some st
before_mark opened c st = some (in_state in_heading [] st)
before_mark in_heading c st = let closed = close_heading st in if c == b']' then closed else some st
before_mark after_heading c st =
    if c == 0 || c == b'\n' then some (in_state after_line st.since st) else some st
before_mark after_line c st = some (in_state in_text [] st)
before_mark in_text c st = some st

-- the entry that ends at `ptr`, with `n` bytes that do not belong to it; no heading is left out here,
-- since state 6 comes behind one
unfoldable pub end_entry : ℕ → Option Heading → Scan → Option Scan
unfolding store_entry
end_entry n none st = none
end_entry n (some h) st =
    let entry = reverse (drop n st.since) in
    if ltb (length entry) 4096 then store_entry h entry st.rc >>= with_rc st else none

-- a new heading starts, or the file is at its end
unfoldable pub new_heading : ScanState → ℕ → Scan → Option Scan
unfolding end_entry
new_heading in_text c st =
    end_entry (if c == 0 then 1 else 2) st.heading st
    >>= (λ st'. some (in_state opened st'.since st'))
new_heading state c st = some (in_state opened st.since st)

abbrev pub is_mark : ℕ → Scan → Bool
is_mark c st =
    (c == b'[' && (st.lastchar == b'!' && (st.lasttwo == b'\n' || st.lasttwo == 0))) || c == 0

unfoldable pub at_mark : ℕ → Scan → Option Scan
unfolding new_heading
at_mark c st = let marked = new_heading st.state c st in if is_mark c st then marked else some st

-- a round, whose byte is `c`, before ptr moves on
unfoldable pub scan_round : ℕ → Scan → Option Scan
unfolding before_mark at_mark
scan_round c st = before_mark st.state c st >>= at_mark c

abbrev pub advance : ℕ → Scan → Scan
advance c st = record {
  state = st.state;
  heading = st.heading;
  since = c ∷ st.since;
  lastchar = c;
  lasttwo = st.lastchar;
  rc = st.rc;
}

unfoldable pub scan_file : Bytes → Scan → Option Settings
unfolding scan_round
scan_file [] st = scan_round 0 st >>= (λ st'. some st'.rc)
scan_file (c ∷ s) st = scan_round c st >>= (λ st'. scan_file s (advance c st'))

abbrev pub start_scan : Option Heading → Settings → Scan
start_scan heading rc = record {
  state = outside;
  heading = heading;
  since = [];
  lastchar = 0;
  lasttwo = 0;
  rc = rc;
}

abbrev pub cleared : ℤ → Settings
cleared lines = record { field = λ h. []; lines = lines }

-- read_sklaffrc, with what open_file and read_file give of the two files, or `none` where one of them
-- fails, and the old Numlines. Where only the second fails, the buffer of the first is freed twice.
unfoldable pub read_sklaffrc : Option Bytes → Option Bytes → ℤ → Option Settings
unfolding scan_file
read_sklaffrc none none lines = some (cleared lines)
read_sklaffrc none (some own) lines = scan_file own (start_scan none (cleared lines))
read_sklaffrc (some global) none lines = none
read_sklaffrc (some global) (some own) lines =
    scan_file global (start_scan none (cleared lines))
    >>= (λ rc. scan_file own (start_scan none rc))

-- the order in which write_sklaffrc goes through the fields
abbrev pub written_headings : List Heading
written_headings =
    adress ∷ postnr ∷ ort ∷ tele1 ∷ tele2 ∷ tele3 ∷ email1 ∷ email2 ∷ url ∷ org ∷ note ∷ sig
    ∷ blocklist ∷ editor ∷ flags ∷ timeout ∷ paid ∷ login ∷ paydate ∷ []

abbrev pub written_entry : Heading → Bytes → Bytes → Bytes
written_entry h [] rest = rest
written_entry h (c ∷ text) rest =
    b'!' ∷ b'[' ∷ (heading_name h ++ b']' ∷ b'\n' ∷ ((c ∷ text) ++ b'\n' ∷ rest))

unfoldable pub written_fields : List Heading → (Heading → Bytes) → Bytes
written_fields [] field = []
written_fields (h ∷ hs) field = written_entry h (field h) (written_fields hs field)

-- the bytes that write_sklaffrc gives to write_file
unfoldable pub sklaffrc_text : Settings → Bytes
unfolding written_fields
sklaffrc_text rc = written_fields written_headings rc.field
