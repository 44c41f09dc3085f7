-- ===== src/Database/Search.antt =====
-- The loops over CONF_FILE, against the list of its entries.
use sklaffkom.Base.{
  ℕ, zero, suc, ◌≤◌, ◌<◌, Bool, ◌≡◌, refl, sym, ap, ◌∙◌, Option, none, some, List, [], ◌∷◌, ◌++◌,
  arith, Bytes, length, length-append, All, append_assoc, ℤ, eqb_ℤ, find_first, find_rest,
  replace_first, find_first-Split, find_rest-none, reverse, take-all, ◌+◌, leb, Bool-cases, inl,
  inr, if◌then◌else◌, true, false, ◌>>=◌, ltb,
}
use sklaffkom.Confs.Lines.{Above, top, IsText, Above-line, before_entry-line}
use sklaffkom.Confs.{before_entry, in_nbuf}
use sklaffkom.Database.Codec.{
  Fits, conf_text, conf_line-text, conf_text-Lacks, stringify-append, get_conf_entry-stringify,
}
use sklaffkom.Database.{
  ConfEntry, Fetched, get_conf_entry, stringify_conf_struct, find_loop, find_conf, new_line,
  replace_conf,
}
use mathlib.Core.Path.{subst}
use sklaffkom.Libc.Columns.{print_int-cons}
use sklaffkom.Libc.{strtol}

-- The file that holds these entries.
abbrev pub database : List ConfEntry → Bytes
database [] = []
database (e ∷ es) = stringify_conf_struct e ++ database es

pub database-append : (es fs : List ConfEntry) → database (es ++ fs) ≡ database es ++ database fs
database-append [] fs = refl
database-append (e ∷ es) fs =
    ap (λ t. stringify_conf_struct e ++ t) (database-append es fs)
    ∙ sym (append_assoc (stringify_conf_struct e) (database es) (database fs))

-- the entry of a conference
abbrev pub has_num : ℤ → ConfEntry → Bool
has_num conf e = eqb_ℤ e.num conf

abbrev pub conf_of : ℤ → List ConfEntry → Option ConfEntry
conf_of conf es = find_first (has_num conf) es

-- the list with the entry of the same conference replaced
abbrev pub put_conf : ConfEntry → List ConfEntry → List ConfEntry
put_conf e es = replace_first (has_num e.num) e es

abbrev pub as_fetched : Option (ConfEntry × List ConfEntry) → Fetched
as_fetched none = none
as_fetched (some (e, post)) = some (e, database post)

text-line : (e : ConfEntry) → stringify_conf_struct e ≡ conf_text e ++ b'\n' ∷ []
unfolding stringify_conf_struct
text-line e = conf_line-text e []

length-database : (es : List ConfEntry) → length es ≤ length (database es)
length-database [] = omega arith
length-database (e ∷ es) =
    rw (stringify-append e (database es), conf_line-text e (database es))
      (omega (arith, length-append (conf_text e) (10 ∷ database es), length-database es))

find_loop-database :
    (f : ℕ) (conf : ℤ) (es : List ConfEntry)
    → length es < f
    → All Fits es
    → find_loop f conf (database es) ≡ some (as_fetched (find_rest (has_num conf) es))
unfolding find_loop
find_loop-database zero conf es h fits = elim h [ ]
find_loop-database (suc f) conf [] h fits = unfold get_conf_entry strtol in refl
find_loop-database (suc f) conf (e ∷ es) h fits =
    rw (get_conf_entry-stringify e (database es) fits.0)
      (ground (arith, find_loop-database f conf es (omega arith) fits.1))

-- The loop finds the entry of the conference and the place behind its line, or finds that there is
-- none.
pub find_conf-database :
    (conf : ℤ) (es : List ConfEntry)
    → All Fits es
    → find_conf conf (database es) ≡ some (as_fetched (find_rest (has_num conf) es))
unfolding find_conf
find_conf-database conf es fits =
    find_loop-database (suc (length (database es))) conf es (omega (arith, length-database es)) fits

conf_text-IsText : (e : ConfEntry) → Fits e → IsText (conf_text e)
conf_text-IsText e h =
    let (c, w, parts) = print_int-cons e.num _ in
    record { head = c; tail = w; parts = parts; lacks = conf_text-Lacks e h }

Above-database : (es : List ConfEntry) → All Fits es → Above (reverse (database es))
Above-database [] h = top
Above-database (e ∷ es) h =
    rw (text-line e)
      (Above-line (database es) (conf_text e) (conf_text-IsText e h.0) (Above-database es h.1))

before_entry-database :
    (pre : List ConfEntry) (e : ConfEntry) (rest : Bytes)
    → All Fits pre
    → Fits e
    → before_entry (database pre ++ (stringify_conf_struct e ++ rest)) rest ≡ database pre
before_entry-database pre e rest h k = rw (text-line e) (
    before_entry-line (database pre) (conf_text e) rest (conf_text-IsText e k)
      (Above-database pre h))

-- A line that snprintf does not cut.
abbrev pub IsShort : ConfEntry → Type 0
IsShort e = length (stringify_conf_struct e) ≤ 158

-- The new file does not fit the buffer of replace_conf: it is at least LINE_LEN bytes longer than the
-- old one.
abbrev pub overflows : ConfEntry → List ConfEntry → Bool
overflows e es = leb (length (database es) + 79) (length (database (put_conf e es)))

-- the buffer, with the new file in it
abbrev pub in_buffer : ConfEntry → List ConfEntry → Option (Option Bytes)
in_buffer e es = if overflows e es then none else some (some (database (put_conf e es)))

in_nbuf-leb :
    (buf new : Bytes)
    → (in_nbuf buf new >>= (λ b. some (some b)))
      ≡ (if leb (length buf + 79) (length new) then none else some (some new))
in_nbuf-leb buf new = elim (Bool-cases (leb (length buf + 79) (length new))) [
  | inl h ↦
      let long : ltb (length new) (length buf + 79) ≡ false = ground arith in rw (h, long) refl
  | inr h ↦
      let short : ltb (length new) (length buf + 79) ≡ true = ground arith in rw (h, short) refl
]

pub put_conf-none :
    (e : ConfEntry) (es : List ConfEntry) → conf_of e.num es ≡ none → put_conf e es ≡ es
put_conf-none e [] h = refl
put_conf-none e (d ∷ es) h = elim (Bool-cases (has_num e.num d)) [
  | inl here ↦ let clash : some d ≡ none = rw here at h in cc
  | inr there ↦ rw there (ap (◌∷◌ d) (put_conf-none e es (rw there at h)))
]

pub All-split :
    (xs ys : List ConfEntry) (y : ConfEntry) → All Fits (xs ++ y ∷ ys) → All Fits xs × Fits y
All-split [] ys y h = (tt, h.0)
All-split (x ∷ xs) ys y h = let k = All-split xs ys y h.1 in ((h.0, k.0), k.1)

pub replace_conf-missing :
    (e : ConfEntry) (es : List ConfEntry)
    → All Fits es
    → conf_of e.num es ≡ none
    → replace_conf e (database es) ≡ some none
unfolding replace_conf
replace_conf-missing e es fits h =
    rw (find_conf-database e.num es fits, find_rest-none (has_num e.num) es h) refl

-- replace_conf on a file that holds an entry of the conference.
pub replace_conf-database :
    (e old : ConfEntry) (es : List ConfEntry)
    → All Fits es
    → IsShort e
    → conf_of e.num es ≡ some old
    → replace_conf e (database es) ≡ in_buffer e es
unfolding replace_conf
replace_conf-database e old es fits short h =
    let parts = find_first-Split (has_num e.num) es old h in
    let (before, here) = All-split parts.pre parts.post old (subst (All Fits) parts.splits fits) in
    let file : database es
        ≡ database parts.pre ++ (stringify_conf_struct old ++ database parts.post) =
      ap database parts.splits ∙ database-append parts.pre (old ∷ parts.post) in
    let new : database (put_conf e es)
        ≡ database parts.pre ++ (stringify_conf_struct e ++ database parts.post) =
      ap database (parts.replaced e) ∙ database-append parts.pre (e ∷ parts.post) in
    let back =
      ap (λ b. before_entry b (database parts.post)) file
      ∙ before_entry-database parts.pre old (database parts.post) before here in
    let whole : new_line e ≡ stringify_conf_struct e =
      take-all 158 (stringify_conf_struct e) short in
    rw (find_conf-database e.num es fits, parts.rest_is, back, whole, sym new)
      (in_nbuf-leb (database es) (database (put_conf e es)))
