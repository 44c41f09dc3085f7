-- ===== src/Intervals/Marking.antt =====
-- `mark_as_read` (text.c) on one interval list.
pub mod Cases
use sklaffkom.Base.{
  ℕ, zero, suc, ◌+◌, ◌≤◌, ◌<◌, Bool, true, false, ◌||◌, ◌≡◌, refl, ◌∙◌, some, none, List, [], ◌∷◌,
  arith, leb, ◌==◌, if◌then◌else◌, Bool-cases, inl, inr, ltb, Option,
}
use sklaffkom.Intervals.Marking.Cases.{marked, close_gap, mark-marked}
use sklaffkom.Intervals.Order.{IsSeparated, IsSeparated-weaken, covers-below}
use sklaffkom.Intervals.{Interval, Intervals, covers, mark, single}

covers-close_gap :
    (text lo u : ℕ) (x : Interval) (il : Intervals)
    → IsSeparated lo (x ∷ il)
    → x.to + 1 ≡ text
    → covers u (close_gap text x il) ≡ (u == text || covers u (x ∷ il))
unfolding covers
covers-close_gap text lo u x [] s e = ground arith
covers-close_gap text lo u x (y ∷ il) s e = ground arith

pub covers-marked :
    (text lo u : ℕ) (il : Intervals)
    → IsSeparated lo il
    → covers u (marked text il) ≡ (u == text || covers u il)
unfolding covers marked
covers-marked text lo u [] s = ground arith
covers-marked text lo u (x ∷ il) s =
    ground (arith, covers-marked text (x.to + 2) u il s.2, covers-close_gap text lo u x il s)

IsSeparated-close_gap :
    (text lo : ℕ) (x : Interval) (il : Intervals)
    → IsSeparated lo (x ∷ il)
    → x.to + 1 ≡ text
    → IsSeparated lo (close_gap text x il)
IsSeparated-close_gap text lo x [] s e = ground arith
IsSeparated-close_gap text lo x (y ∷ il) s e = elim (Bool-cases (y.from == text + 1)) [
  | inl h ↦ rw h (s.0, ground arith, s.2.2)
  | inr h ↦ rw h (s.0, ground arith, (ground arith, s.2.1, s.2.2))
]

pub IsSeparated-marked :
    (text lo : ℕ) (il : Intervals) → lo ≤ text → IsSeparated lo il → IsSeparated lo (marked text il)
unfolding marked
IsSeparated-marked text lo [] h s = ground arith
IsSeparated-marked text lo (x ∷ il) h s =
    ground (arith, IsSeparated-marked text (x.to + 2) il, IsSeparated-close_gap text lo x il s)

-- For a list in order above `lo` and a text of at least `lo` that it does not hold, mark_as_read
-- meets no null pointer; the new list is again in order above `lo`, and holds exactly the text and
-- what the old one held.
pub mark_lem :
    (text lo : ℕ) (il : Intervals)
    → lo ≤ text
    → IsSeparated lo il
    → covers text il ≡ false
    → (new : Intervals) × (mark text il ≡ some new)
      × IsSeparated lo new
      × ((u : ℕ) → covers u new ≡ (u == text || covers u il))
mark_lem text lo il h s c = (
  marked text il,
  mark-marked text lo il s c,
  IsSeparated-marked text lo il h s,
  λ u. covers-marked text lo u il s,
)
