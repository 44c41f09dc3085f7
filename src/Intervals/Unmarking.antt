-- ===== src/Intervals/Unmarking.antt =====
-- `mark_as_unread` (text.c) on one interval list.
use sklaffkom.Base.{ℕ, ◌+◌, ◌≤◌, false, ◌&&◌, not, ◌≡◌, some, [], ◌∷◌, arith, ◌==◌}
use sklaffkom.Intervals.Marking.{mark_lem}
use sklaffkom.Intervals.Order.{IsSeparated, IsSeparated-weaken, covers-below, separated_unique}
use sklaffkom.Intervals.{Intervals, covers, mark, unmark}

covers-unmark :
    (text lo u : ℕ) (il : Intervals)
    → IsSeparated lo il
    → covers u (unmark text il) ≡ (not (u == text) && covers u il)
unfolding covers unmark
covers-unmark text lo u [] s = ground arith
covers-unmark text lo u (x ∷ il) s =
    ground (arith, covers-unmark text (x.to + 2) u il s.2, covers-below u (x.to + 2) il s.2)

IsSeparated-unmark :
    (text lo : ℕ) (il : Intervals) → IsSeparated lo il → IsSeparated lo (unmark text il)
unfolding unmark
IsSeparated-unmark text lo [] s = tt
IsSeparated-unmark text lo (x ∷ il) s = ground (
  arith,
  IsSeparated-unmark text (x.to + 2) il s.2,
  IsSeparated-weaken (x.to + 2) lo il,
  IsSeparated-weaken (x.to + 2) (x.to + 1) il,
)

-- For a list in order above `lo`, mark_as_unread gives a list in order above `lo` that holds exactly
-- the texts of the old one other than the given text.
pub unmark_lem :
    (text lo : ℕ) (il : Intervals)
    → IsSeparated lo il
    → IsSeparated lo (unmark text il)
      × ((u : ℕ) → covers u (unmark text il) ≡ (not (u == text) && covers u il))
unmark_lem text lo il s = (IsSeparated-unmark text lo il s, λ u. covers-unmark text lo u il s)

-- Marking a text as unread undoes marking it as read: for a list in order above `lo` that does not
-- hold a text of at least `lo`, mark_as_read succeeds and mark_as_unread then gives the very same
-- list back, whichever of the branches of the two functions were taken.
pub unmark-mark :
    (text lo : ℕ) (il : Intervals)
    → lo ≤ text
    → IsSeparated lo il
    → covers text il ≡ false
    → (new : Intervals) × (mark text il ≡ some new) × (unmark text new ≡ il)
unmark-mark text lo il h s c =
    let (new, e, s', holds_new) = mark_lem text lo il h s c in
    (
      new,
      e,
      separated_unique lo lo (unmark text new) il (IsSeparated-unmark text lo new s') s
          (λ u. ground (arith, covers-unmark text lo u new s', holds_new u)),
    )
