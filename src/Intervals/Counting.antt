-- ===== src/Intervals/Counting.antt =====
-- `num_unread` on one interval list, against a count of the texts one by one.
use sklaffkom.Base.{
  ℕ, zero, suc, ◌+◌, ◌-◌, ◌≤◌, ◌≡◌, refl, ◌∙◌, ap, [], ◌∷◌, arith, leb, if◌then◌else◌, ltb, ℤ, pos,
  ◌+ℤ◌, ◌-ℤ◌,
}
use sklaffkom.Intervals.Order.{IsSeparated, covers-below}
use sklaffkom.Intervals.{Interval, Intervals, covers}

-- `unread = unread - (to - from + 1)`, interval by interval
unfoldable pub subtract_lengths : ℤ → Intervals → ℤ
subtract_lengths unread [] = unread
subtract_lengths unread (x ∷ il) = subtract_lengths (unread -ℤ (pos x.to -ℤ pos x.from +ℤ pos 1)) il

-- the number of texts 1, …, n that are not read
abbrev pub count_unread : ℕ → Intervals → ℕ
count_unread zero il = 0
count_unread (suc n) il = (if covers (suc n) il then 0 else 1) + count_unread n il

abbrev count_read : ℕ → Intervals → ℕ
count_read zero il = 0
count_read (suc n) il = (if covers (suc n) il then 1 else 0) + count_read n il

-- no text after `last` is read
abbrev pub EndsBy : ℕ → Intervals → Type 0
EndsBy last [] = Unit
EndsBy last (x ∷ il) = (x.to ≤ last) × EndsBy last il

total : Intervals → ℕ
total [] = 0
total (x ∷ il) = (x.to - x.from + 1) + total il

count_both : (n : ℕ) (il : Intervals) → count_read n il + count_unread n il ≡ n
count_both zero il = refl
count_both (suc n) il = ground (arith, count_both n il)

count_read-cons :
    (n lo : ℕ) (x : Interval) (il : Intervals)
    → IsSeparated lo (x ∷ il)
    → count_read n (x ∷ il) ≡ count_read n (x ∷ []) + count_read n il
unfolding covers
count_read-cons zero lo x il s = refl
count_read-cons (suc n) lo x il s =
    ground (arith, count_read-cons n lo x il s, covers-below (suc n) (x.to + 2) il s.2)

count_read-one :
    (n : ℕ) (x : Interval)
    → 1 ≤ x.from
    → x.from ≤ x.to
    → count_read n (x ∷ [])
      ≡ (if ltb n x.from then 0 else if leb n x.to then n - x.from + 1 else x.to - x.from + 1)
unfolding covers
count_read-one zero x h k = ground arith
count_read-one (suc n) x h k = ground (arith, count_read-one n x h k)

count_read-nil : (n : ℕ) → count_read n [] ≡ 0
unfolding covers
count_read-nil zero = refl
count_read-nil (suc n) = omega (arith, count_read-nil n)

count_read-total :
    (n lo : ℕ) (il : Intervals)
    → 1 ≤ lo
    → IsSeparated lo il
    → EndsBy n il
    → count_read n il ≡ total il
unfolding total
count_read-total n lo [] h s e = count_read-nil n
count_read-total n lo (x ∷ il) h s e = ground (
  arith,
  count_read-cons n lo x il s,
  count_read-one n x (omega arith) s.1,
  count_read-total n (x.to + 2) il (omega arith) s.2 e.1,
)

subtract_lengths-total :
    (a lo : ℕ) (il : Intervals)
    → IsSeparated lo il
    → total il ≤ a
    → subtract_lengths (pos a) il ≡ pos (a - total il)
unfolding subtract_lengths total
subtract_lengths-total a lo [] s h = ap pos (omega arith)
subtract_lengths-total a lo (x ∷ il) s h =
    let step : pos a -ℤ (pos x.to -ℤ pos x.from +ℤ pos 1) ≡ pos (a - (x.to - x.from + 1)) =
      unfold ◌+ℤ◌ ◌-ℤ◌ in ground arith in
    rw step (
      subtract_lengths-total (a - (x.to - x.from + 1)) (x.to + 2) il s.2 (omega arith)
      ∙ ap pos (omega arith))

-- What num_unread computes from a list in order, whose texts lie in 1, …, last, is the number of
-- the texts 1, …, last that the list does not hold.
pub subtract_lengths-count_unread :
    (last : ℕ) (il : Intervals)
    → IsSeparated 1 il
    → EndsBy last il
    → subtract_lengths (pos last) il ≡ pos (count_unread last il)
subtract_lengths-count_unread last il s e =
    let read = count_read-total last 1 il (omega arith) s e in
    let both = count_both last il in
    subtract_lengths-total last 1 il s (omega arith) ∙ ap pos (omega arith)
