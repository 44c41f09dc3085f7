-- ===== src/Reading/Room.antt =====
-- How much longer a line of the `confs` file gets when mark_as_read or mark_as_unread (text.c) changes
-- it: by 40 bytes at most, two numbers of 19 digits, a dash and a comma.
use sklaffkom.Base.{
  ℕ, ◌+◌, ◌≤◌, [], ◌∷◌, arith, Bool-cases, inl, inr, ◌==◌, Bytes, length, ltb, leb, ◌&&◌, ◌-◌,
}
use sklaffkom.Confs.Codec.{IntervalsFit, length_digits}
use sklaffkom.Confs.Replace.{HasRoom}
use sklaffkom.Confs.{ConfsEntry, print_intervals, stringify_confs_struct}
use sklaffkom.Intervals.Marking.Cases.{marked, close_gap}
use sklaffkom.Intervals.{Interval, Intervals, unmark}
use sklaffkom.Libc.Errno.{length-print_nat}
use sklaffkom.Libc.{long_max, print_nat}

abbrev digits : ℕ → ℕ
digits n = length (print_nat n [])

-- the bytes of a list of intervals, with a comma behind each
abbrev size : Intervals → ℕ
size [] = 0
size (x ∷ il) = digits x.from + digits x.to + 2 + size il

digits-long : (n : ℕ) → n ≤ long_max + 1 → digits n ≤ 19
digits-long n h = omega (arith, length-print_nat n 18 [] (omega arith))

size-print :
    (il : Intervals) (tail : Bytes)
    → (length (print_intervals il tail) ≤ size il + length tail)
      × (size il + length tail ≤ length (print_intervals il tail) + 1)
unfolding print_intervals
size-print [] tail = (omega arith, omega arith)
size-print (x ∷ []) tail =
    let a = length_digits x.from (45 ∷ print_nat x.to tail) in
    let b = length_digits x.to tail in (omega (arith, a, b), omega (arith, a, b))
size-print (x ∷ y ∷ il) tail =
    let rest = 44 ∷ print_intervals (y ∷ il) tail in
    let a = length_digits x.from (45 ∷ print_nat x.to rest) in
    let b = length_digits x.to rest in
    let (high, low) = size-print (y ∷ il) tail in
    (omega (arith, a, b, high), omega (arith, a, b, low))

size-close_gap :
    (text : ℕ) (x : Interval) (il : Intervals)
    → digits text ≤ 19
    → size (close_gap text x il) ≤ size (x ∷ il) + 40
size-close_gap text x [] d = omega arith
size-close_gap text x (y ∷ il) d = elim (Bool-cases (y.from == text + 1)) [
  | inl e ↦ rw e (omega arith)
  | inr e ↦ rw e (omega arith)
]

size-marked : (text : ℕ) (il : Intervals) → digits text ≤ 19 → size (marked text il) ≤ size il + 40
unfolding marked
size-marked text [] d = omega arith
size-marked text (x ∷ il) d = elim (Bool-cases (ltb (text + 1) x.from)) [
  | inl a ↦ rw a (omega arith)
  | inr a ↦ elim (Bool-cases (x.from == text + 1)) [
    | inl b ↦ rw (a, b) (omega arith)
    | inr b ↦ elim (Bool-cases (leb text x.to)) [
      | inl c ↦ rw (a, b, c) (omega arith)
      | inr c ↦ elim (Bool-cases (x.to + 1 == text)) [
        | inl e ↦ rw (a, b, c, e) (size-close_gap text x il d)
        | inr e ↦ rw (a, b, c, e) (omega (arith, size-marked text il d))
      ]
    ]
  ]
]

size-unmark : (text : ℕ) (il : Intervals) → IntervalsFit il → size (unmark text il) ≤ size il + 40
unfolding unmark
size-unmark text [] f = omega arith
size-unmark text (x ∷ il) (low, high, f) = elim (Bool-cases (leb x.from text && leb text x.to)) [
  | inl h ↦
      let within : (x.from ≤ text) × (text ≤ x.to) = (ground arith, ground arith) in
      let (from, to) = within in
      let a = digits-long (text - 1) (omega arith) in
      let b = digits-long (text + 1) (omega arith) in
      let c = digits-long (x.from + 1) (omega arith) in
      let d = digits-long (x.to - 1) (omega arith) in
      elim (Bool-cases (x.from == x.to)) [
        | inl e ↦ rw (h, e) (omega arith)
        | inr e ↦ elim (Bool-cases (x.from == text)) [
          | inl g ↦ rw (h, e, g) (omega arith)
          | inr g ↦ elim (Bool-cases (x.to == text)) [
            | inl k ↦ rw (h, e, g, k) (omega arith)
            | inr k ↦ rw (h, e, g, k) (omega arith)
          ]
        ]
      ]
  | inr h ↦ rw h (omega (arith, size-unmark text il f))
]

HasRoom-size :
    (cse : ConfsEntry) (il : Intervals)
    → size il ≤ size cse.il + 40
    → HasRoom (record cse { il = il }) cse
unfolding stringify_confs_struct
HasRoom-size cse il h =
    let (high, _) = size-print il (10 ∷ []) in
    let (_, low) = size-print cse.il (10 ∷ []) in
    let a = length_digits cse.num (58 ∷ print_intervals il (10 ∷ [])) in
    let b = length_digits cse.num (58 ∷ print_intervals cse.il (10 ∷ [])) in
    omega (arith, high, low, a, b)

pub HasRoom-marked :
    (text : ℕ) (cse : ConfsEntry)
    → text ≤ long_max + 1
    → HasRoom (record cse { il = marked text cse.il }) cse
HasRoom-marked text cse h =
    HasRoom-size cse (marked text cse.il) (size-marked text cse.il (digits-long text h))

pub HasRoom-unmark :
    (text : ℕ) (cse : ConfsEntry)
    → IntervalsFit cse.il
    → HasRoom (record cse { il = unmark text cse.il }) cse
HasRoom-unmark text cse f = HasRoom-size cse (unmark text cse.il) (size-unmark text cse.il f)
