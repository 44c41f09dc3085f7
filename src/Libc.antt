-- ===== src/Libc.antt =====
-- The C library functions on strings and numbers that the program calls. A string is the list of
-- its bytes before the terminating NUL; a pointer into it is the rest of the string from there.
pub mod Decimal
pub mod Search
pub mod Errno
pub mod Columns
use sklaffkom.Base.{
  ℕ, zero, suc, ◌+◌, ◌-◌, ◌*◌, ◌/◌, ◌%◌, ◌^◌, Bool, true, false, ◌&&◌, ◌||◌, Option, none, some,
  List, [], ◌∷◌, ◌++◌, Bytes, ltb, leb, ◌==◌, if◌then◌else◌, ◌>>=◌, ℤ, pos, negsuc,
}

-- isspace in the C locale
abbrev pub isspace : ℕ → Bool
isspace c = c == 32 || (leb 9 c && leb c 13)

abbrev pub isdigit : ℕ → Bool
isdigit c = leb b'0' c && leb c b'9'

-- strchr: the string from the first `c` on, or NULL
unfoldable pub strchr : Bytes → ℕ → Option Bytes
strchr [] c = none
strchr (x ∷ xs) c = if x == c then some (x ∷ xs) else strchr xs c

-- strchr(s, c) + 1, which is undefined where strchr gives NULL
unfoldable pub strchr_next : Bytes → ℕ → Option Bytes
strchr_next [] c = none
strchr_next (x ∷ xs) c = if x == c then some xs else strchr_next xs c

-- the bytes before the first `c`, all of them where there is none
unfoldable pub before : Bytes → ℕ → Bytes
before [] c = []
before (x ∷ xs) c = if x == c then [] else x ∷ before xs c

abbrev pub last_or : Option Bytes → Option Bytes → Option Bytes
last_or here none = here
last_or here (some ys) = some ys

-- strrchr(s, c) + 1: the string after the last `c`
unfoldable pub strrchr_next : Bytes → ℕ → Option Bytes
strrchr_next [] c = none
strrchr_next (x ∷ xs) c = last_or (if x == c then some xs else none) (strrchr_next xs c)

abbrev pub is_none {ℓ} : {A : Type ℓ} → Option A → Bool
is_none none = true
is_none (some a) = false

-- the bytes before the last `c`, all of them where there is none
unfoldable pub before_last : Bytes → ℕ → Bytes
unfolding strrchr_next
before_last [] c = []
before_last (x ∷ xs) c = if x == c && is_none (strrchr_next xs c) then [] else x ∷ before_last xs c

unfoldable pub skip_spaces : Bytes → Bytes
skip_spaces [] = []
skip_spaces (x ∷ xs) = if isspace x then skip_spaces xs else x ∷ xs

abbrev pub long_max : ℕ
long_max = 2 ^ 63 - 1

abbrev pub int_max : ℕ
int_max = 2 ^ 31 - 1

-- the value of a row of digits, with the row's first value `n`, and what follows the row
unfoldable pub scan_digits : ℕ → Bytes → ℕ × Bytes
scan_digits n [] = (n, [])
scan_digits n (c ∷ cs) =
    let rest = scan_digits (n * 10 + (c - b'0')) cs in if isdigit c then rest else (n, c ∷ cs)

-- out of range, strtol gives the nearest long
abbrev pub clamp_pos : ℕ → ℤ
clamp_pos n = if leb n long_max then pos n else pos long_max

abbrev pub clamp_neg : ℕ → ℤ
clamp_neg zero = pos 0
clamp_neg (suc n) = if leb n long_max then negsuc n else negsuc long_max

unfoldable pub unsigned_digits : (ℕ → ℤ) → Bytes → Option (ℤ × Bytes)
unfolding scan_digits
unsigned_digits sign [] = none
unsigned_digits sign (c ∷ cs) =
    if isdigit c then some (sign (scan_digits 0 (c ∷ cs)).0, (scan_digits 0 (c ∷ cs)).1) else none

unfoldable pub signed_digits : Bytes → Option (ℤ × Bytes)
unfolding unsigned_digits
signed_digits [] = none
signed_digits (c ∷ cs) =
    if c == b'-'
    then unsigned_digits clamp_neg cs
    else if c == b'+'
    then unsigned_digits clamp_pos cs
    else unsigned_digits clamp_pos (c ∷ cs)

-- strtol(s, &end, 10): the value and `end`; `none` where `end` is `s`
unfoldable pub strtol : Bytes → Option (ℤ × Bytes)
unfolding skip_spaces signed_digits
strtol s = signed_digits (skip_spaces s)

unfoldable pub atol : Bytes → ℤ
unfolding strtol
atol s = elim (strtol s) [ none ↦ pos 0 | some (n, end) ↦ n ]

-- (int) of a long: the value modulo 2^32, as a signed number
abbrev pub wrap_int : ℕ → ℤ
wrap_int r = if leb r int_max then pos r else negsuc (2 ^ 32 - r - 1)

unfoldable pub to_int : ℤ → ℤ
to_int (pos n) = wrap_int (n % 2 ^ 32)
to_int (negsuc n) = wrap_int (2 ^ 32 - n % 2 ^ 32 - 1)

-- atoi, which is (int) strtol
unfoldable pub atoi : Bytes → ℤ
unfolding atol to_int
atoi s = to_int (atol s)

-- the digits of `n`, before `tail`; `f` bounds their number
unfoldable pub print_fuel : ℕ → ℕ → Bytes → Bytes
print_fuel zero n tail = tail
print_fuel (suc f) n tail =
    let more = print_fuel f (n / 10) ((b'0' + n % 10) ∷ tail) in
    if ltb n 10 then (b'0' + n) ∷ tail else more

-- printf's %d, %ld and %lld, before `tail`
unfoldable pub print_nat : ℕ → Bytes → Bytes
unfolding print_fuel
print_nat n tail = print_fuel (suc n) n tail

unfoldable pub print_int : ℤ → Bytes → Bytes
unfolding print_nat
print_int (pos n) tail = print_nat n tail
print_int (negsuc n) tail = b'-' ∷ print_nat (suc n) tail

abbrev pub neg_nat : ℕ → ℤ
neg_nat zero = pos 0
neg_nat (suc n) = negsuc n

unfoldable pub exact_digits : Bytes → Option (ℤ × Bytes)
unfolding unsigned_digits
exact_digits [] = none
exact_digits (c ∷ cs) =
    if c == b'-'
    then unsigned_digits neg_nat cs
    else if c == b'+'
    then unsigned_digits pos cs
    else unsigned_digits pos (c ∷ cs)

abbrev pub fits_long : ℤ → Bool
fits_long (pos n) = leb n long_max
fits_long (negsuc n) = leb n long_max

abbrev pub in_range : ℤ × Bytes → Option (ℤ × Bytes)
in_range (n, end) = if fits_long n then some (n, end) else none

-- strtol and strtoll with errno 0 before the call: the value and `end`; `none` where `end` is `s` or
-- errno is set
unfoldable pub strtol_errno : Bytes → Option (ℤ × Bytes)
unfolding skip_spaces exact_digits
strtol_errno s = exact_digits (skip_spaces s) >>= in_range

abbrev pub is_prefix : Bytes → Bytes → Bool
is_prefix [] s = true
is_prefix (k ∷ key) [] = false
is_prefix (k ∷ key) (c ∷ s) = c == k && is_prefix key s

-- strstr: the string from the first occurrence of `key` on, or NULL
unfoldable pub strstr : Bytes → Bytes → Option Bytes
strstr [] key = if is_prefix key [] then some [] else none
strstr (c ∷ s) key =
    let further = strstr s key in if is_prefix key (c ∷ s) then some (c ∷ s) else further

-- whether strcmp gives 0
abbrev pub same_string : Bytes → Bytes → Bool
same_string [] [] = true
same_string (a ∷ s) (b ∷ t) = a == b && same_string s t
same_string _ _ = false

-- tolower in the POSIX locale
abbrev pub tolower : ℕ → ℕ
tolower c = if leb b'A' c && leb c b'Z' then c + 32 else c

-- whether strcasecmp gives 0
abbrev pub same_letters : Bytes → Bytes → Bool
same_letters [] [] = true
same_letters (a ∷ s) (b ∷ t) = tolower a == tolower b && same_letters s t
same_letters _ _ = false
