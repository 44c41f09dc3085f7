-- ===== src/Ftn/RoundTrip.antt =====
-- ftn_address_parse after ftn_address_format (ftnconfig.c).
use sklaffkom.Base.{
  ℕ, ◌+◌, ◌-◌, ◌≤◌, ◌≡◌, refl, ap, sym, arith, Bytes, false, ◌==◌, [], ◌∷◌, some, length, inl, inr,
  Bool-cases, take-all,
}
use sklaffkom.Libc.{print_nat}
use sklaffkom.Libc.Decimal.{Stops}
use sklaffkom.Libc.Errno.{strtol_errno-print_nat, length-print_nat}
use sklaffkom.Ftn.{
  FtnAddress, parse_number, parse_point, ftn_address_parse, address_text, ftn_address_format,
}

-- Every number is a 16-bit number.
pub record IsShort (a : FtnAddress) : Type 0 where
  pub zone : a.zone ≤ 65535
  pub net : a.net ≤ 65535
  pub node : a.node ≤ 65535
  pub point : a.point ≤ 65535

parse_number-print_nat :
    (n : ℕ) (rest : Bytes)
    → n ≤ 65535
    → Stops rest
    → parse_number (print_nat n rest) ≡ some (n, rest)
unfolding parse_number
parse_number-print_nat n rest h s =
    rw (strtol_errno-print_nat n rest (omega arith) s) (ground arith)

pub parse-address_text : (a : FtnAddress) → IsShort a → ftn_address_parse (address_text a) ≡ some a
unfolding ftn_address_parse parse_point
parse-address_text a h = elim (Bool-cases (a.point == 0)) [
  | inl e ↦
      let no_point : a.point ≡ 0 = ground arith in
      rw
        (
          e,
          parse_number-print_nat a.zone _ h.zone refl,
          parse_number-print_nat a.net _ h.net refl,
          parse_number-print_nat a.node [] h.node tt,
        )
        (ap (λ p. some (record a { point = p })) (sym no_point))
  | inr e ↦
      rw
        (
          e,
          parse_number-print_nat a.zone _ h.zone refl,
          parse_number-print_nat a.net _ h.net refl,
          parse_number-print_nat a.node _ h.node refl,
          parse_number-print_nat a.point [] h.point tt,
        )
        refl
]

digits : (n : ℕ) (tail : Bytes) → n ≤ 65535 → length (print_nat n tail) ≤ 5 + length tail
digits n tail h = length-print_nat n 4 tail (omega arith)

length-address_text : (a : FtnAddress) → IsShort a → length (address_text a) ≤ 23
length-address_text a h = elim (Bool-cases (a.point == 0)) [
  | inl e ↦ rw e (
      omega (
        arith,
        digits a.zone (58 ∷ print_nat a.net (47 ∷ print_nat a.node [])) h.zone,
        digits a.net (47 ∷ print_nat a.node []) h.net,
        digits a.node [] h.node,
      ))
  | inr e ↦ rw e (
      omega (
        arith,
        digits a.zone (58 ∷ print_nat a.net (47 ∷ print_nat a.node (46 ∷ print_nat a.point [])))
            h.zone,
        digits a.net (47 ∷ print_nat a.node (46 ∷ print_nat a.point [])) h.net,
        digits a.node (46 ∷ print_nat a.point []) h.node,
        digits a.point [] h.point,
      ))
]

-- ftn_address_parse reads every address of 16-bit numbers, with a point or without, back from what
-- ftn_address_format wrote for it into a buffer of at least 24 bytes, of which nothing is cut off.
pub ftn_address_parse-ftn_address_format :
    (a : FtnAddress) (outsz : ℕ)
    → IsShort a
    → 24 ≤ outsz
    → (out : Bytes) × (ftn_address_format a outsz ≡ some out) × (ftn_address_parse out ≡ some a)
unfolding ftn_address_format
ftn_address_parse-ftn_address_format a outsz h size =
    let large : (outsz == 0) ≡ false = ground arith in
    (
      address_text a,
      rw large (
          ap some (take-all (outsz - 1) (address_text a) (omega (arith, length-address_text a h)))),
      parse-address_text a h,
    )
