-- ===== src/Reading/Bounds.antt =====
-- The size of the numbers in the interval lists that text.c changes.
use sklaffkom.Base.{ℕ, ◌+◌, ◌≤◌, [], ◌∷◌, arith, Bool-cases, inl, inr, ◌==◌}
use sklaffkom.Confs.Codec.{IntervalsFit}
use sklaffkom.Intervals.Marking.Cases.{marked, close_gap}
use sklaffkom.Intervals.{Interval, Intervals, unmark}
use sklaffkom.Libc.{long_max}

IntervalsFit-close_gap :
    (text : ℕ) (x : Interval) (il : Intervals)
    → text ≤ long_max
    → IntervalsFit (x ∷ il)
    → IntervalsFit (close_gap text x il)
IntervalsFit-close_gap text x [] h f = ground arith
IntervalsFit-close_gap text x (y ∷ il) h f = elim (Bool-cases (y.from == text + 1)) [
  | inl e ↦ rw e (f.0, f.2.1, f.2.2)
  | inr e ↦ rw e (f.0, h, f.2)
]

pub IntervalsFit-marked :
    (text : ℕ) (il : Intervals) → text ≤ long_max → IntervalsFit il → IntervalsFit (marked text il)
unfolding marked
IntervalsFit-marked text [] h f = ground arith
IntervalsFit-marked text (x ∷ il) h f =
    ground (arith, IntervalsFit-marked text il, IntervalsFit-close_gap text x il)

pub IntervalsFit-unmark :
    (text : ℕ) (il : Intervals) → IntervalsFit il → IntervalsFit (unmark text il)
unfolding unmark
IntervalsFit-unmark text [] f = tt
IntervalsFit-unmark text (x ∷ il) f = ground (arith, IntervalsFit-unmark text il)
