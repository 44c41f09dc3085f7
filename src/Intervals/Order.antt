-- ===== src/Intervals/Order.antt =====
-- The order that the program keeps its interval lists in, and the sets of texts that they stand for.
use sklaffkom.Base.{ℕ, ◌+◌, ◌≤◌, ◌<◌, false, ◌≡◌, refl, [], ◌∷◌, arith}
use mathlib.Core.Path.{ap₂}
use sklaffkom.Intervals.{Interval, Intervals, covers}

-- The intervals are not empty, increase, and leave a gap between each two; all texts are `lo` or more.
abbrev pub IsSeparated : ℕ → Intervals → Type 0
IsSeparated lo [] = Unit
IsSeparated lo (x ∷ il) = (lo ≤ x.from) × (x.from ≤ x.to) × IsSeparated (x.to + 2) il

pub IsSeparated-weaken :
    (lo lo' : ℕ) (il : Intervals) → lo' ≤ lo → IsSeparated lo il → IsSeparated lo' il
IsSeparated-weaken lo lo' [] h s = tt
IsSeparated-weaken lo lo' (x ∷ il) h s = (omega arith, s.1, s.2)

-- Nothing below the bound is read.
pub covers-below :
    (text lo : ℕ) (il : Intervals) → IsSeparated lo il → text < lo → covers text il ≡ false
unfolding covers
covers-below text lo [] s h = refl
covers-below text lo (x ∷ il) s h = ground (arith, covers-below text (x.to + 2) il s.2)

-- Two lists in order with the same texts: their first intervals are the same, and their rests too.
module _ (lo lo' : ℕ) (x y : Interval) (il jl : Intervals) (s : IsSeparated lo (x ∷ il))
    (s' : IsSeparated lo' (y ∷ jl))
    (same : (text : ℕ) → covers text (x ∷ il) ≡ covers text (y ∷ jl)) where
  first_from : x.from ≡ y.from
  unfolding covers
  first_from = ground (
    arith,
    same x.from,
    same y.from,
    covers-below x.from (y.to + 2) jl s'.2,
    covers-below y.from (x.to + 2) il s.2,
  )

  first_to : x.to ≡ y.to
  unfolding covers
  first_to = ground (
    arith,
    first_from,
    same (x.to + 1),
    same (y.to + 1),
    covers-below (x.to + 1) (y.to + 2) jl s'.2,
    covers-below (x.to + 1) (x.to + 2) il s.2,
    covers-below (y.to + 1) (x.to + 2) il s.2,
    covers-below (y.to + 1) (y.to + 2) jl s'.2,
  )

  same_rest : (text : ℕ) → covers text il ≡ covers text jl
  unfolding covers
  same_rest text = ground (
    arith,
    first_from,
    first_to,
    same text,
    covers-below text (y.to + 2) jl s'.2,
    covers-below text (x.to + 2) il s.2,
  )

-- Two interval lists in order that stand for the same set of texts are equal.
pub separated_unique :
    (lo lo' : ℕ) (il il' : Intervals)
    → IsSeparated lo il
    → IsSeparated lo' il'
    → ((text : ℕ) → covers text il ≡ covers text il')
    → il ≡ il'
separated_unique lo lo' [] [] s s' same = refl
separated_unique lo lo' [] (y ∷ jl) s s' same =
    absurd (unfold covers in ground (arith, same y.from))
separated_unique lo lo' (x ∷ il) [] s s' same =
    absurd (unfold covers in ground (arith, same x.from))
separated_unique lo lo' (x ∷ il) (y ∷ jl) s s' same =
    let from_eq = first_from lo lo' x y il jl s s' same in
    let to_eq = first_to lo lo' x y il jl s s' same in
    let rest = same_rest lo lo' x y il jl s s' same in
    let head : x ≡ y = ground arith in
    ap₂ (λ (a : Interval) (b : Intervals). a ∷ b) head
      (separated_unique (x.to + 2) (y.to + 2) il jl s.2 s'.2 rest)
