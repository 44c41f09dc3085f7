-- ===== src/Next.antt =====
-- `next_text` of text.c: the next unread text of a conference. It reads the user's `confs` file, and
-- each deleted text that it meets is marked as read there before the next round. The first rounds
-- ask `first_text` for the oldest text, to mark all texts before it at once. `none` is an access
-- through a null pointer, a write past a buffer, or too little fuel. That malloc fails is left out.
pub mod Candidates
pub mod Lines
pub mod Spec
pub mod Rounds
pub mod Liveness
use sklaffkom.Base.{
  ℕ, zero, suc, ◌+◌, ◌-◌, Bool, true, false, not, ◌&&◌, ◌||◌, Option, none, some, [], ◌∷◌, ◌++◌,
  Bytes, length, ltb, ◌==◌, if◌then◌else◌, ◌>>=◌, ℤ, pos, negsuc, failure,
}
use sklaffkom.Confs.{ConfsEntry, Lookup, found, missing, broken, find_confs, before_entry}
use sklaffkom.Intervals.{Intervals}
use sklaffkom.Libc.{print_nat}
use sklaffkom.RawIo.{Calls, open_file, read_file, write_file, close_file}
use sklaffkom.Reading.{mark_as_read}
use sklaffkom.Texts.{TextFiles, last_in, first_text}

-- the outcomes of the system calls of one round, which opens the file twice: once to read it, and
-- once to change it, itself or in mark_as_read
pub record Round : Type 0 where
  pub reading : Calls
  pub writing : Calls

-- the return value, the global variable Nexttext and the bytes of the file after the call
pub record Result : Type 0 where
  pub value : ℤ
  pub nexttext : ℤ
  pub file : Bytes

-- what one round leaves to the next
pub record State : Type 0 where
  pub flag : Bool
  pub first : ℕ
  pub file : Bytes

pub data Step : Type 0 where
  done : Result → Step
  again : State → Step

-- `text` and `high`, as the list of the conference sets them
pub record Candidate : Type 0 where
  pub text : ℕ
  pub high : ℕ

abbrev pub candidate : Intervals → Candidate
candidate [] = record { text = 1; high = 1 }
candidate (x ∷ []) =
    if ltb 1 x.from
    then record { text = 1; high = 0 }
    else record { text = x.to + 1; high = x.to + 1 }
candidate (x ∷ y ∷ il) =
    if ltb 1 x.from then record { text = 1; high = 0 } else record { text = x.to + 1; high = 0 }

-- `if (text > last) text = 0L`
abbrev pub at_most : ℤ → ℕ → ℕ
at_most (negsuc n) text = 0
at_most (pos last) text = if ltb last text then 0 else text

-- the file with the line `num:1-(first - 1)` in the place of the one before `rest`
abbrev pub rewritten : ConfsEntry → ℕ → Bytes → Bytes → Bytes
rewritten cse first buf rest =
    before_entry buf rest
    ++ print_nat cse.num (b':' ∷ b'1' ∷ b'-' ∷ print_nat (first - 1) (b'\n' ∷ rest))

-- behind write_file: 1 is taken for a success
abbrev pub written : Calls → ℤ → State → ℤ × Bytes → Step
written calls nexttext s (negsuc n, file) =
    done (record { value = failure; nexttext = nexttext; file = file })
written calls nexttext s (pos n, file) =
    if close_file calls
    then again (record s { file = file })
    else done (record { value = failure; nexttext = nexttext; file = file })

-- `nbuf` is a buffer of `strlen(oldbuf) + 10` bytes
abbrev pub store_first : Calls → ℤ → State → Bytes → Option Step
store_first calls nexttext s nbuf =
    if ltb (length s.file + 10) (length nbuf + 1)
    then none
    else if open_file calls
    then some (written calls nexttext s (write_file calls nbuf s.file))
    else some (done (record { value = failure; nexttext = nexttext; file = s.file }))

abbrev pub mark_first : Calls → ℤ → State → ConfsEntry → Option Bytes → Option Step
mark_first calls nexttext s cse none = none
mark_first calls nexttext s cse (some rest) =
    store_first calls nexttext s (rewritten cse s.first s.file rest)

-- the return value of mark_as_read is not looked at
abbrev pub mark_one : Calls → ℕ → ℕ → State → Option Step
mark_one calls text conf s = do
  (code, file) ← mark_as_read calls text conf s.file
  some (again (record s { file = file }))

-- `first` and `flag` before the text is skipped
abbrev pub ask_first : TextFiles → ℕ → ℕ → State → Option State
ask_first files conf high s =
    if not s.flag && ltb 0 high
    then (do
      first ← first_text files (pos conf)
      some (record { flag = true; first = first; file = s.file }))
    else some s

abbrev pub skip_text : Calls → ℕ → ℤ → Candidate → ConfsEntry → Option Bytes → State → Option Step
skip_text calls conf nexttext c cse rest s =
    if ltb 0 c.high && ltb c.text s.first
    then mark_first calls nexttext s cse rest
    else mark_one calls c.text conf s

abbrev pub found_text : ℕ → Bytes → Option Step
found_text text file = some (done (record { value = pos text; nexttext = pos text; file = file }))

-- The round with the list of the conference known. Behind a text of 0 `high` is not used.
unfoldable pub try_text :
    Calls → TextFiles → ℕ → ℤ → State → ConfsEntry → Option Bytes → Candidate → Option Step
try_text calls files conf nexttext s cse rest c =
    if c.text == 0 || conf == 0
    then found_text c.text s.file
    else if files.exists c.text
    then found_text c.text s.file
    else ask_first files conf c.high s >>= skip_text calls conf nexttext c cse rest

abbrev pub try_found : Calls → TextFiles → ℕ → ℤ → ℤ → State → Lookup → Option Step
try_found calls files conf last nexttext s missing =
    some (done (record { value = failure; nexttext = nexttext; file = s.file }))
try_found calls files conf last nexttext s broken = none
try_found calls files conf last nexttext s (found cse rest) =
    let c = candidate cse.il in
    try_text calls files conf nexttext s cse rest (record c { text = at_most last c.text })

-- one round of `while (deleted)`
unfoldable pub next_round : Round → TextFiles → ℕ → ℤ → ℤ → State → Option Step
next_round round files conf last nexttext s =
    let failed = some (done (record { value = failure; nexttext = nexttext; file = s.file })) in
    if open_file round.reading
    then elim (read_file round.reading s.file) [
      | none ↦ failed
      | some buf ↦
          if close_file round.reading
          then try_found round.writing files conf last nexttext s (find_confs conf buf)
          else failed
    ]
    else failed

abbrev pub continue : (State → Option Result) → Option Step → Option Result
continue next none = none
continue next (some (done r)) = some r
continue next (some (again s)) = next s

-- the loop, from round number `k` on
unfoldable pub next_loop : ℕ → ℕ → (ℕ → Round) → TextFiles → ℕ → ℤ → ℤ → State → Option Result
next_loop zero k rounds files conf last nexttext s = none
next_loop (suc f) k rounds files conf last nexttext s =
    continue (next_loop f (suc k) rounds files conf last nexttext)
      (next_round (rounds k) files conf last nexttext s)

-- Nexttext and the file before the call are the last two arguments. Each round that returns to the
-- loop has marked a text of 1, …, last, unless its writes failed: a fuel of last + 1 is enough then.
unfoldable pub next_text : ℕ → (ℕ → Round) → TextFiles → ℕ → ℤ → Bytes → Option Result
next_text f rounds files conf nexttext file = do
  last ← last_in files (pos conf)
  next_loop f 0 rounds files conf last nexttext (record { flag = false; first = 0; file = file })
