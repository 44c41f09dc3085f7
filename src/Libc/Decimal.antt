-- ===== src/Libc/Decimal.antt =====
-- Numbers printed by printf are read back by strtol, and contain no separator.
use sklaffkom.Base.{
  ℕ, zero, suc, ◌+◌, ◌-◌, ◌*◌, ◌/◌, ◌%◌, ◌≤◌, ◌<◌, true, false, ◌≡◌, refl, ap, ◌∙◌, some, [], ◌∷◌,
  ◌++◌, arith, Bytes, All, ltb, ◌==◌, Bool-cases, ℤ, pos, negsuc, inl, inr, ◌^◌,
}
use sklaffkom.Libc.{
  isdigit, scan_digits, clamp_pos, clamp_neg, unsigned_digits, strtol, atol, long_max, print_fuel,
  print_nat, print_int, to_int, int_max, atoi,
}

-- `rest` does not go on with a digit
abbrev pub Stops : Bytes → Type 0
Stops [] = Unit
Stops (c ∷ cs) = isdigit c ≡ false

scan_digits-digit :
    (n d : ℕ) (tail : Bytes)
    → d < 10
    → scan_digits n ((b'0' + d) ∷ tail) ≡ scan_digits (n * 10 + d) tail
unfolding scan_digits
scan_digits-digit n d tail h =
    let digit : isdigit (48 + d) ≡ true = ground arith in
    let same : n * 10 + (48 + d - 48) ≡ n * 10 + d = omega arith in rw (digit, same)

scan_digits-print_fuel :
    (f n : ℕ) (tail : Bytes) → n < f → scan_digits 0 (print_fuel f n tail) ≡ scan_digits n tail
unfolding print_fuel
scan_digits-print_fuel zero n tail h = elim h [ ]
scan_digits-print_fuel (suc f) n tail h = elim (Bool-cases (ltb n 10)) [
  | inl small ↦
      rw small
        (scan_digits-digit 0 n tail (ground arith) ∙ ap (λ k. scan_digits k tail) (omega arith))
  | inr large ↦ rw large (
      scan_digits-print_fuel f (n / 10) _ (ground arith)
      ∙ scan_digits-digit (n / 10) (n % 10) tail (omega arith)
      ∙ ap (λ k. scan_digits k tail) (omega arith))
]

pub scan_digits-print_nat :
    (n : ℕ) (tail : Bytes) → scan_digits 0 (print_nat n tail) ≡ scan_digits n tail
unfolding print_nat
scan_digits-print_nat n tail = scan_digits-print_fuel (suc n) n tail (omega arith)

pub scan_digits-Stops : (n : ℕ) (rest : Bytes) → Stops rest → scan_digits n rest ≡ (n, rest)
unfolding scan_digits
scan_digits-Stops n [] h = refl
scan_digits-Stops n (c ∷ cs) h = rw h

-- Every printed number begins with a digit.
pub data Leads : Bytes → Type 0 where
  leads : (c : ℕ) (cs : Bytes) → isdigit c ≡ true → Leads (c ∷ cs)

print_fuel-Leads : (f n : ℕ) (tail : Bytes) → n < f → Leads (print_fuel f n tail)
unfolding print_fuel
print_fuel-Leads zero n tail h = elim h [ ]
print_fuel-Leads (suc f) n tail h = elim (Bool-cases (ltb n 10)) [
  | inl small ↦ rw small (leads (48 + n) tail (ground arith))
  | inr large ↦ rw large (print_fuel-Leads f (n / 10) _ (ground arith))
]

pub print_nat-Leads : (n : ℕ) (tail : Bytes) → Leads (print_nat n tail)
unfolding print_nat
print_nat-Leads n tail = print_fuel-Leads (suc n) n tail (omega arith)

unsigned_digits-Leads :
    (sign : ℕ → ℤ) {s : Bytes}
    → Leads s
    → unsigned_digits sign s ≡ some (sign (scan_digits 0 s).0, (scan_digits 0 s).1)
unfolding unsigned_digits
unsigned_digits-Leads sign (leads c cs h) = rw h

strtol-Leads : {s : Bytes} → Leads s → strtol s ≡ unsigned_digits clamp_pos s
unfolding strtol
strtol-Leads (leads c cs h) = ground arith

-- strtol reads a printed natural number back, and stops where the digits stop.
pub strtol-print_nat :
    (n : ℕ) (rest : Bytes)
    → n ≤ long_max
    → Stops rest
    → strtol (print_nat n rest) ≡ some (pos n, rest)
strtol-print_nat n rest fits stops =
    strtol-Leads (print_nat-Leads n rest)
    ∙ unsigned_digits-Leads clamp_pos (print_nat-Leads n rest)
    ∙ rw (scan_digits-print_nat, scan_digits-Stops n rest stops) (ground arith)

abbrev pub IsLong : ℤ → Type 0
IsLong (pos n) = n ≤ long_max
IsLong (negsuc n) = n ≤ long_max

-- strtol reads every printed long back.
pub strtol-print_int :
    (z : ℤ) (rest : Bytes) → IsLong z → Stops rest → strtol (print_int z rest) ≡ some (z, rest)
unfolding print_int
strtol-print_int (pos n) rest fits stops = strtol-print_nat n rest fits stops
strtol-print_int (negsuc n) rest fits stops =
    strtol-minus _
    ∙ unsigned_digits-Leads clamp_neg (print_nat-Leads (suc n) rest)
    ∙ rw (scan_digits-print_nat, scan_digits-Stops (suc n) rest stops) (ground arith)
  where
    strtol-minus : (s : Bytes) → strtol (b'-' ∷ s) ≡ unsigned_digits clamp_neg s
    strtol-minus s = unfold strtol in refl

pub atol-print_int : (z : ℤ) (rest : Bytes) → IsLong z → Stops rest → atol (print_int z rest) ≡ z
unfolding atol
atol-print_int z rest fits stops = rw (strtol-print_int z rest fits stops, atol)

pub atol-print_nat :
    (n : ℕ) (rest : Bytes) → n ≤ long_max → Stops rest → atol (print_nat n rest) ≡ pos n
unfolding atol
atol-print_nat n rest fits stops = rw (strtol-print_nat n rest fits stops, atol)

-- A printed number is a block of bytes that does not depend on what follows it.
print_fuel-append : (f n : ℕ) (xs ys : Bytes) → print_fuel f n (xs ++ ys) ≡ print_fuel f n xs ++ ys
unfolding print_fuel
print_fuel-append zero n xs ys = refl
print_fuel-append (suc f) n xs ys = elim (Bool-cases (ltb n 10)) [
  | inl small ↦ rw small
  | inr large ↦ rw large (print_fuel-append f (n / 10) ((48 + n % 10) ∷ xs) ys)
]

pub print_nat-append : (n : ℕ) (xs ys : Bytes) → print_nat n (xs ++ ys) ≡ print_nat n xs ++ ys
unfolding print_nat
print_nat-append n xs ys = print_fuel-append (suc n) n xs ys

pub print_int-append : (z : ℤ) (xs ys : Bytes) → print_int z (xs ++ ys) ≡ print_int z xs ++ ys
unfolding print_int
print_int-append (pos n) xs ys = print_nat-append n xs ys
print_int-append (negsuc n) xs ys = ap (◌∷◌ 45) (print_nat-append (suc n) xs ys)

-- No byte of the string is `c`.
abbrev pub Lacks : ℕ → Bytes → Type 0
Lacks c = All (λ x. (x == c) ≡ false)

print_fuel-Lacks :
    (c f n : ℕ) (tail : Bytes) → isdigit c ≡ false → Lacks c tail → Lacks c (print_fuel f n tail)
unfolding print_fuel
print_fuel-Lacks c zero n tail h k = k
print_fuel-Lacks c (suc f) n tail h k = elim (Bool-cases (ltb n 10)) [
  | inl small ↦ rw small (ground arith, k)
  | inr large ↦ rw large (print_fuel-Lacks c f (n / 10) ((48 + n % 10) ∷ tail) h (ground arith, k))
]

pub print_nat-Lacks :
    (c n : ℕ) (tail : Bytes) → isdigit c ≡ false → Lacks c tail → Lacks c (print_nat n tail)
unfolding print_nat
print_nat-Lacks c n tail h k = print_fuel-Lacks c (suc n) n tail h k

pub print_int-Lacks :
    (c : ℕ) (z : ℤ) (tail : Bytes)
    → isdigit c ≡ false
    → (b'-' == c) ≡ false
    → Lacks c tail
    → Lacks c (print_int z tail)
unfolding print_int
print_int-Lacks c (pos n) tail h m k = print_nat-Lacks c n tail h k
print_int-Lacks c (negsuc n) tail h m k = (m, print_nat-Lacks c (suc n) tail h k)

pub atol-space : (s : Bytes) → atol (b' ' ∷ s) ≡ atol s
unfolding atol
atol-space s = unfold strtol in refl

pub to_int-fits : (n : ℕ) → n ≤ int_max → to_int (pos n) ≡ pos n
unfolding to_int
to_int-fits n h = let small : n % 2 ^ 32 ≡ n = omega arith in rw small (ground arith)

-- A number that fits an int.
abbrev pub IsInt : ℤ → Type 0
IsInt (pos n) = n ≤ int_max
IsInt (negsuc n) = n ≤ int_max

pub IsInt-IsLong : (z : ℤ) → IsInt z → IsLong z
IsInt-IsLong (pos n) h = omega arith
IsInt-IsLong (negsuc n) h = omega arith

pub to_int-IsInt : (z : ℤ) → IsInt z → to_int z ≡ z
unfolding to_int
to_int-IsInt (pos n) h = to_int-fits n h
to_int-IsInt (negsuc n) h = let small : n % 2 ^ 32 ≡ n = omega arith in rw small (ground arith)

-- atoi reads every printed int back.
pub atoi-print_int : (z : ℤ) (rest : Bytes) → IsInt z → Stops rest → atoi (print_int z rest) ≡ z
unfolding atoi
atoi-print_int z rest h s =
    ap to_int (atol-print_int z rest (IsInt-IsLong z h) s) ∙ to_int-IsInt z h

pub atoi-space : (s : Bytes) → atoi (b' ' ∷ s) ≡ atoi s
unfolding atoi
atoi-space s = ap to_int (atol-space s)
