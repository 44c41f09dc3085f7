-- ===== src/Libc/Errno.antt =====
-- strtol with a test of errno, and the number of digits of a printed number.
use sklaffkom.Base.{
  ℕ, zero, suc, ◌+◌, ◌*◌, ◌/◌, ◌%◌, ◌≤◌, ◌<◌, ◌≡◌, ◌∙◌, some, ◌∷◌, arith, Bytes, length, ltb,
  Bool-cases, pos, inl, inr, true,
}
use sklaffkom.Libc.{
  scan_digits, unsigned_digits, strtol_errno, in_range, long_max, print_fuel, print_nat,
}
use sklaffkom.Libc.Decimal.{
  Stops, Leads, leads, print_nat-Leads, scan_digits-print_nat, scan_digits-Stops,
}

strtol_errno-Leads :
    {s : Bytes} → Leads s → strtol_errno s ≡ in_range (pos (scan_digits 0 s).0, (scan_digits 0 s).1)
unfolding strtol_errno unsigned_digits
strtol_errno-Leads (leads c cs h) = ground (arith, h)

pub strtol_errno-print_nat :
    (n : ℕ) (rest : Bytes)
    → n ≤ long_max
    → Stops rest
    → strtol_errno (print_nat n rest) ≡ some (pos n, rest)
strtol_errno-print_nat n rest fits stops =
    strtol_errno-Leads (print_nat-Leads n rest)
    ∙ rw (scan_digits-print_nat, scan_digits-Stops n rest stops) (ground arith)

-- the power of ten
abbrev pub ten : ℕ → ℕ
ten zero = 1
ten (suc k) = 10 * ten k

length-print_fuel :
    (f n k : ℕ) (tail : Bytes)
    → n < ten (suc k)
    → length (print_fuel f n tail) ≤ suc k + length tail
unfolding print_fuel
length-print_fuel zero n k tail h = omega arith
length-print_fuel (suc f) n zero tail h =
    let small : ltb n 10 ≡ true = ground arith in rw small (omega arith)
length-print_fuel (suc f) n (suc k) tail h = elim (Bool-cases (ltb n 10)) [
  | inl small ↦ rw small (omega arith)
  | inr large ↦
      rw large (omega (arith, length-print_fuel f (n / 10) k ((48 + n % 10) ∷ tail) (omega arith)))
]

-- A number below 10^(k + 1) has at most k + 1 digits.
pub length-print_nat :
    (n k : ℕ) (tail : Bytes) → n < ten (suc k) → length (print_nat n tail) ≤ suc k + length tail
unfolding print_nat
length-print_nat n k tail h = length-print_fuel (suc n) n k tail h
