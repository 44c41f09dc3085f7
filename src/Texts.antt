-- ===== src/Texts.antt =====
-- The text files of a conference: `first_text` and `count_existing_texts` of conf.c, which search them
-- for the oldest one. Whether a file exists is a parameter; no file has a negative number for its name.
pub mod First
use sklaffkom.Base.{
  ℕ, zero, suc, ◌+◌, ◌-◌, ◌/◌, Bool, ◌&&◌, ◌||◌, Option, none, some, Bytes, ltb, leb, if◌then◌else◌,
  ◌>>=◌, ℤ, pos, negsuc,
}
use sklaffkom.Database.{last_text}
use sklaffkom.RawIo.{Calls}

-- What the functions read for one conference: the outcomes of the calls on the mailbox file and its
-- bytes, the same of CONF_FILE, and which numbers are the names of texts.
pub record TextFiles : Type 0 where
  pub mbox : Calls
  pub mailbox : Bytes
  pub calls : Calls
  pub database : Bytes
  pub exists : ℕ → Bool

abbrev pub last_in : TextFiles → ℤ → Option ℤ
last_in files conf = last_text files.mbox files.mailbox files.calls files.database conf

-- the variables of the loop
pub record Bounds : Type 0 where
  pub first : ℕ
  pub last : ℕ
  pub ptr : ℕ

-- does the text `ptr - k` exist?
abbrev pub exists_back : (ℕ → Bool) → ℕ → ℕ → Bool
exists_back exists ptr k = leb k ptr && exists (ptr - k)

-- the body of the loop, with `ptr` set
abbrev pub probe : (ℕ → Bool) → ℕ → ℕ → ℕ → Bounds
probe exists first last ptr =
    if exists ptr
    then record { first = first; last = ptr; ptr = ptr }
    else if exists_back exists ptr 1
    then record { first = first; last = ptr - 1; ptr = ptr - 1 }
    else if exists_back exists ptr 2
    then record { first = first; last = ptr - 2; ptr = ptr - 2 }
    else if exists_back exists ptr 3
    then record { first = first; last = ptr - 3; ptr = ptr - 3 }
    else record { first = ptr + 1; last = last; ptr = ptr + 1 }

unfoldable pub narrow : (ℕ → Bool) → Bounds → Bounds
narrow exists b = probe exists b.first b.last ((b.first + b.last) / 2)

-- `while (last > first)`
unfoldable pub first_loop : ℕ → (ℕ → Bool) → Bounds → Option ℕ
first_loop zero exists b = none
first_loop (suc f) exists b =
    let further = first_loop f exists (narrow exists b) in
    if ltb b.first b.last then further else some b.ptr

-- the loop from a last text; a negative one is less than `first`
unfoldable pub first_before : (ℕ → Bool) → ℤ → Option ℕ
first_before exists (negsuc n) = some 1
first_before exists (pos last) =
    first_loop (suc last) exists (record { first = 1; last = last; ptr = 1 })

unfoldable pub first_text : TextFiles → ℤ → Option ℕ
first_text files conf = last_in files conf >>= first_before files.exists

-- behind `ftext = first_text(…)`
abbrev pub count_from : ℕ → ℕ → ℕ
count_from ftext last = if leb ftext 0 || ltb last ftext then 0 else last - ftext + 1

unfoldable pub count_existing_texts : TextFiles → ℤ → ℤ → Option ℕ
count_existing_texts files confnum (negsuc n) = some 0
count_existing_texts files confnum (pos zero) = some 0
count_existing_texts files confnum (pos (suc last)) = do
  ftext ← first_text files confnum
  some (count_from ftext (suc last))
