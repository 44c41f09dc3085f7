-- ===== src/Intervals/Marking/Cases.antt =====
-- The three branches of `mark_as_read` by `bound` against one insertion into an ordered list.
use sklaffkom.Base.{
  ℕ, ◌+◌, ◌≤◌, ◌<◌, false, ◌≡◌, refl, some, [], ◌∷◌, arith, leb, ◌==◌, if◌then◌else◌, ltb, true,
  Bool-cases, inl, inr,
}
use sklaffkom.Intervals.Order.{IsSeparated}
use sklaffkom.Intervals.{
  Interval, Intervals, covers, bound, single, insert_after, new_interval, extend_interval,
  merge_intervals, mark,
}

-- the interval `x`, which ends just before the text, joined with the next one where that begins
-- just behind it
abbrev pub close_gap : ℕ → Interval → Intervals → Intervals
close_gap text x [] = record x { to = text } ∷ []
close_gap text x (y ∷ il) =
    if y.from == text + 1 then record x { to = y.to } ∷ il else record x { to = text } ∷ y ∷ il

-- insertion of a text, from left to right
unfoldable pub marked : ℕ → Intervals → Intervals
marked text [] = single text ∷ []
marked text (x ∷ il) =
    let further = x ∷ marked text il in
    if ltb (text + 1) x.from
    then single text ∷ x ∷ il
    else if x.from == text + 1
    then record x { from = text } ∷ il
    else if leb text x.to
    then x ∷ il
    else if x.to + 1 == text
    then close_gap text x il
    else further

-- No interval adjoins a text that lies further below.
bound-far : (text lo : ℕ) (il : Intervals) → IsSeparated lo il → text + 1 < lo → bound text il ≡ 0
unfolding bound
bound-far text lo [] s h = refl
bound-far text lo (x ∷ il) s h = ground (arith, bound-far text (x.to + 2) il s.2)

pub bound-le-two : (text lo : ℕ) (il : Intervals) → IsSeparated lo il → bound text il ≤ 2
unfolding bound
bound-le-two text lo [] s = omega arith
bound-le-two text lo (x ∷ []) s = ground arith
bound-le-two text lo (x ∷ y ∷ il) s = ground (
  arith,
  bound-le-two text (x.to + 2) (y ∷ il) s.2,
  bound-far text (x.to + 2) (y ∷ il) s.2,
  bound-far text (y.to + 2) il s.2.2,
)

insert_after-marked :
    (text : ℕ) (x : Interval) (il : Intervals)
    → x.to + 1 < text
    → IsSeparated (x.to + 2) il
    → covers text il ≡ false
    → bound text il ≡ 0
    → insert_after text x il ≡ x ∷ marked text il
unfolding covers bound insert_after marked
insert_after-marked text x [] h s c b = ground arith
insert_after-marked text x (y ∷ il) h s c b = ground (arith, insert_after-marked text y il)

pub new_interval-marked :
    (text lo : ℕ) (il : Intervals)
    → IsSeparated lo il
    → covers text il ≡ false
    → bound text il ≡ 0
    → new_interval text il ≡ marked text il
unfolding covers bound new_interval marked
new_interval-marked text lo [] s c b = refl
new_interval-marked text lo (x ∷ il) s c b = ground (arith, insert_after-marked text x il)

close_gap-free :
    (text : ℕ) (x : Interval) (il : Intervals)
    → bound text il ≡ 0
    → close_gap text x il ≡ record x { to = text } ∷ il
unfolding bound
close_gap-free text x [] b = refl
close_gap-free text x (y ∷ il) b = ground arith

pub extend_interval-marked :
    (text lo : ℕ) (il : Intervals)
    → IsSeparated lo il
    → covers text il ≡ false
    → bound text il ≡ 1
    → extend_interval text il ≡ marked text il
unfolding covers bound extend_interval marked
extend_interval-marked text lo [] s c b = ground arith
extend_interval-marked text lo (x ∷ il) s c b = ground (
  arith,
  extend_interval-marked text (x.to + 2) il,
  bound-far text (x.to + 2) il s.2,
  close_gap-free text x il,
)

marked-pass :
    (text : ℕ) (x : Interval) (il : Intervals)
    → x.from ≤ x.to
    → x.to + 1 < text
    → marked text (x ∷ il) ≡ x ∷ marked text il
unfolding marked
marked-pass text x il h k = ground arith

-- With two intervals to join, the text lies behind an interval that does not adjoin it.
merge_pass :
    (text lo : ℕ) (x : Interval) (il : Intervals)
    → IsSeparated lo (x ∷ il)
    → covers text (x ∷ il) ≡ false
    → bound text (x ∷ il) ≡ 2
    → (x.to + 1 == text) ≡ false
    → (x.to + 1 < text) × (covers text il ≡ false) × (bound text il ≡ 2)
unfolding covers bound
merge_pass text lo x il s c b n = ground (arith, bound-far text (x.to + 2) il s.2)

merge_here :
    (text lo : ℕ) (x y : Interval) (il : Intervals)
    → IsSeparated lo (x ∷ y ∷ il)
    → bound text (x ∷ y ∷ il) ≡ 2
    → (x.to + 1 == text) ≡ true
    → y.from ≡ text + 1
unfolding bound
merge_here text lo x y il s b h = ground (arith, bound-far text (y.to + 2) il s.2.2)

marked-here :
    (text : ℕ) (x y : Interval) (il : Intervals)
    → x.from ≤ x.to
    → (x.to + 1 == text) ≡ true
    → y.from ≡ text + 1
    → marked text (x ∷ y ∷ il) ≡ record x { to = y.to } ∷ il
unfolding marked
marked-here text x y il h e n = ground arith

pub merge_intervals-marked :
    (text lo : ℕ) (il : Intervals)
    → IsSeparated lo il
    → covers text il ≡ false
    → bound text il ≡ 2
    → merge_intervals text il ≡ some (marked text il)
unfolding merge_intervals
merge_intervals-marked text lo [] s c b = unfold bound in ground arith
merge_intervals-marked text lo (x ∷ []) s c b = unfold bound in ground arith
merge_intervals-marked text lo (x ∷ y ∷ il) s c b = elim (Bool-cases (x.to + 1 == text)) [
  | inl e ↦ rw (e, marked-here text x y il s.1 e (merge_here text lo x y il s b e)) refl
  | inr n ↦
      let p = merge_pass text lo x (y ∷ il) s c b n in
      rw
        (
          n,
          marked-pass text x (y ∷ il) s.1 p.0,
          merge_intervals-marked text (x.to + 2) (y ∷ il) s.2 p.1 p.2,
        )
        refl
]

-- mark_as_read, whichever branch `bound` selects, is the insertion.
pub mark-marked :
    (text lo : ℕ) (il : Intervals)
    → IsSeparated lo il
    → covers text il ≡ false
    → mark text il ≡ some (marked text il)
unfolding mark
mark-marked text lo il s c = ground (
  arith,
  bound-le-two text lo il s,
  new_interval-marked text lo il s c,
  extend_interval-marked text lo il s c,
  merge_intervals-marked text lo il s c,
)
