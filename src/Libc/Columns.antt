-- ===== src/Libc/Columns.antt =====
-- Printed numbers with a separator behind them.
use sklaffkom.Base.{ℕ, suc, ◌≡◌, refl, ap, ◌∙◌, false, some, [], ◌∷◌, ◌==◌, Bytes, ℤ, pos, negsuc}
use sklaffkom.Libc.{isdigit, strchr_next, print_int, print_nat}
use sklaffkom.Libc.Decimal.{print_int-Lacks, print_int-append, Leads, leads, print_nat-Leads}
use sklaffkom.Libc.Search.{strchr_next-found}

-- strchr finds the separator behind the number.
pub strchr_next-print_int :
    (c : ℕ) (z : ℤ) (rest : Bytes)
    → isdigit c ≡ false
    → (b'-' == c) ≡ false
    → strchr_next (print_int z (c ∷ rest)) c ≡ some rest
strchr_next-print_int c z rest d m =
    ap (λ s. strchr_next s c) (print_int-append z [] (c ∷ rest))
    ∙ strchr_next-found (print_int z []) c rest (print_int-Lacks c z [] d m tt)

-- A printed number is not empty.
pub print_int-cons : (z : ℤ) (rest : Bytes) → (c : ℕ) × (w : Bytes) × (print_int z rest ≡ c ∷ w)
unfolding print_int
print_int-cons (pos n) rest = go (print_nat-Leads n rest) refl
  where
    go :
        {s : Bytes}
        → Leads s
        → print_nat n rest ≡ s
        → (c : ℕ) × (w : Bytes) × (print_nat n rest ≡ c ∷ w)
    go (leads c w h) e = (c, w, e)
print_int-cons (negsuc n) rest = (45, print_nat (suc n) rest, refl)
