-- ===== src/Flags/RoundTrip.antt =====
-- set_flags after save_flags (flag.c).
use sklaffkom.Base.{
  ◌⊎◌, inl, inr, none, sym, ◌+◌, if◌then◌else◌, length-append, ℕ, ◌≡◌, refl, arith, Bytes, Bool,
  true, not, ◌&&◌, ◌==◌, codes, [], ◌∷◌, some, ℤ, pos, All, leb, List, length, ◌∙◌, ap,
}
use sklaffkom.Libc.{print_int, print_nat, print_fuel, isdigit, strstr}
use sklaffkom.Libc.Decimal.{Lacks, IsInt}
use sklaffkom.Flags.{
  Flags, print_line, flag_value, read_flags, flag_lines, print_lines, set_flags, saved_flags,
}
use sklaffkom.Flags.Lines.{IsKey, IsLine, first_value, flag_value-print_lines}

-- The value of the flag is an int.
abbrev pub HasInt : Bytes × ℤ → Type 0
HasInt (name, value) = IsInt value

-- The flag is 0 or 1, as the program sets it.
abbrev pub IsBit : Bytes × ℤ → Type 0
IsBit (name, value) = (value ≡ pos 0) ⊎ (value ≡ pos 1)

abbrev lacks : ℕ → Bytes → Bool
lacks c [] = true
lacks c (x ∷ s) = not (x == c) && lacks c s

lacks-Lacks : (c : ℕ) (s : Bytes) → lacks c s ≡ true → Lacks c s
lacks-Lacks c [] h = tt
lacks-Lacks c (x ∷ s) h = (ground arith, lacks-Lacks c s (ground arith))

abbrev is_key : ℕ → Bytes → Bool
is_key k key =
    lacks b' ' (k ∷ key)
    && not (isdigit k)
    && not (b'-' == k)
    && not (b' ' == k)
    && not (b'=' == k)
    && not (b'\n' == k)

is_key-IsKey : (k : ℕ) (key : Bytes) → is_key k key ≡ true → IsKey k key
is_key-IsKey k key h = record {
  blank = lacks-Lacks b' ' (k ∷ key) (ground arith);
  digit = ground arith;
  dash = ground arith;
  space = ground arith;
  equals = ground arith;
  newline = ground arith;
}

-- no name has an `=` in it
abbrev named : List (Bytes × ℤ) → Bool
named [] = true
named ((name, value) ∷ ls) = lacks b'=' name && named ls

named-IsLine : (ls : List (Bytes × ℤ)) → named ls ≡ true → All HasInt ls → All IsLine ls
named-IsLine [] h fits = tt
named-IsLine ((name, value) ∷ ls) h fits =
    ((lacks-Lacks b'=' name (ground arith), fits.0), named-IsLine ls (ground arith) fits.1)

-- What the search for the keys finds in the text is what the lines hold.
module _ (text : Bytes) (f : Flags)
    (finds : (k : ℕ) (key : Bytes) (default : ℤ)
      → IsKey k key
      → flag_value text (k ∷ key) default
        ≡ some (first_value (flag_lines f) (k ∷ key) default)) where
  found :
      (k : ℕ) (key : Bytes) (default : ℤ)
      → is_key k key ≡ true
      → flag_value text (k ∷ key) default ≡ some (first_value (flag_lines f) (k ∷ key) default)
  found k key default h = finds k key default (is_key-IsKey k key h)

  read_flags-lines : read_flags text ≡ some f
  unfolding read_flags strstr
  read_flags-lines =
      rw
        (
          found b's' (codes "hout") (pos 1) refl,
          found b's' (codes "ay") (pos 1) refl,
          found b'p' (codes "resent") (pos 1) refl,
          found b'i' (codes "bm") (pos 0) refl,
          found b'i' (codes "so8859") (pos 0) refl,
          found b'm' (codes "ac") (pos 0) refl,
          found b's' (codes "ubject_change") (pos 1) refl,
          found b'e' (codes "nd_default") (pos 0) refl,
          found b's' (codes "pace") (pos 0) refl,
          found b'c' (codes "opy") (pos 1) refl,
          found b'a' (codes "uthor") (pos 0) refl,
          found b'd' (codes "ate") (pos 0) refl,
          found b'b' (codes "eep") (pos 1) refl,
          found b'c' (codes "lear") (pos 0) refl,
          found b'h' (codes "eader") (pos 0) refl,
          found b'p' (codes "resbeep") (pos 0) refl,
          found b's' (codes "trip") (pos 0) refl,
          found b'o' (codes "ldwho") (pos 0) refl,
          found b'a' (codes "nsi") (pos 0) refl,
          found b'u' (codes "tf8") (pos 0) refl,
          found b'f' (codes "orce_sf7") (pos 0) refl,
          found b'a' (codes "lternate_intro") (pos 0) refl,
          found b'r' (codes "ookie_mode") (pos 1) refl,
          found b's' (codes "tart_mailbox") (pos 0) refl,
          found b'i' (codes "bol_logout") (pos 0) refl,
        )
        refl

kept : (text t : Bytes) → (if leb 400 (length t) then none else some t) ≡ some text → t ≡ text
kept text t h = ground arith

-- set_flags gives back every flag that save_flags wrote, whatever ints the flags are, if the text that
-- save_flags prints fits the 400 bytes of `rc->flags`.
pub set_flags-saved_flags :
    (f : Flags) (text : Bytes)
    → All HasInt (flag_lines f)
    → saved_flags f ≡ some text
    → set_flags text ≡ some f
unfolding set_flags saved_flags print_lines
set_flags-saved_flags f text h saved =
    let lines = named-IsLine (flag_lines f) refl h in
    let same = kept text (print_lines (flag_lines f)) saved in
    ap set_flags (sym same)
    ∙ read_flags-lines (print_lines (flag_lines f)) f
        (λ k key default. λ c. flag_value-print_lines k key (flag_lines f) default c lines)

-- the length of the text of flags of one digit
abbrev size : List (Bytes × ℤ) → ℕ
size [] = 0
size ((name, value) ∷ ls) = length name + 5 + size ls

length-print_bit :
    (name : Bytes) (value : ℤ) (rest : Bytes)
    → IsBit (name, value)
    → length (print_int value rest) ≡ 1 + length rest
unfolding print_int print_nat print_fuel
length-print_bit name value rest (inl e) = rw e (omega arith)
length-print_bit name value rest (inr e) = rw e (omega arith)

length-print_line :
    (name : Bytes) (value : ℤ) (rest : Bytes)
    → IsBit (name, value)
    → length (print_line name value rest) ≡ length name + 5 + length rest
length-print_line name value rest h = omega (
  arith,
  length-append name (32 ∷ 61 ∷ 32 ∷ print_int value (10 ∷ rest)),
  length-print_bit name value (10 ∷ rest) h,
)

length-print_lines : (ls : List (Bytes × ℤ)) → All IsBit ls → length (print_lines ls) ≡ size ls
unfolding print_lines
length-print_lines [] h = refl
length-print_lines ((name, value) ∷ ls) h =
    length-print_line name value (print_lines ls) h.0
    ∙ ap (λ n. length name + 5 + n) (length-print_lines ls h.1)

IsBit-IsInt : (name : Bytes) (value : ℤ) → IsBit (name, value) → IsInt value
IsBit-IsInt name value (inl e) = rw e (omega arith)
IsBit-IsInt name value (inr e) = rw e (omega arith)

IsBit-HasInt : (ls : List (Bytes × ℤ)) → All IsBit ls → All HasInt ls
IsBit-HasInt [] h = tt
IsBit-HasInt ((name, value) ∷ ls) h = (IsBit-IsInt name value h.0, IsBit-HasInt ls h.1)

-- Flags that are 0 or 1 always fit: save_flags writes a text, and set_flags gives the flags back from
-- it.
pub saved_flags-fits :
    (f : Flags)
    → All IsBit (flag_lines f)
    → (text : Bytes) × (saved_flags f ≡ some text) × (set_flags text ≡ some f)
unfolding saved_flags
saved_flags-fits f h =
    let short : length (print_lines (flag_lines f)) ≡ 298 = length-print_lines (flag_lines f) h in
    let saved : saved_flags f ≡ some (print_lines (flag_lines f)) = rw short refl in
    (
      print_lines (flag_lines f),
      saved,
      set_flags-saved_flags f (print_lines (flag_lines f)) (IsBit-HasInt (flag_lines f) h) saved,
    )
