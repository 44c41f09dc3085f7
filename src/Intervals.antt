-- ===== src/Intervals.antt =====
-- The interval lists of a `confs` file (struct INT_LIST, struct CONFS_ENTRY), and what text.c and
-- conf.c compute from one list: `mark_as_read`, `check_if_read`, `mark_as_unread` and `num_unread`
-- between reading and writing the file. Text numbers are not negative.
pub mod Order
pub mod Marking
pub mod Unmarking
pub mod Counting
use sklaffkom.Base.{
  ℕ, zero, suc, ◌+◌, ◌-◌, Bool, true, false, ◌&&◌, ◌||◌, Option, none, some, List, [], ◌∷◌, ltb,
  leb, ◌==◌, if◌then◌else◌, ◌>>=◌,
}

-- struct INT_LIST, without its `next`
pub record Interval : Type 0 where
  pub from : ℕ
  pub to : ℕ

abbrev pub Intervals : Type 0
Intervals = List Interval

-- `from <= text && to >= text`
abbrev pub holds : ℕ → Interval → Bool
holds text x = leb x.from text && leb text x.to

-- the loop that sets `found`
unfoldable pub covers : ℕ → Intervals → Bool
covers text [] = false
covers text (x ∷ il) = holds text x || covers text il

-- `from == text + 1 || to == text - 1`
abbrev pub adjoins : ℕ → Interval → Bool
adjoins text x = x.from == text + 1 || x.to + 1 == text

-- the loop that counts `bound`
unfoldable pub bound : ℕ → Intervals → ℕ
bound text [] = 0
bound text (x ∷ il) = (if adjoins text x then 1 else 0) + bound text il

abbrev pub single : ℕ → Interval
single text = record { from = text; to = text }

-- `saved` is the interval before the rest; the loop stops before the gap that holds `text`, or at
-- the end of the list
unfoldable pub insert_after : ℕ → Interval → Intervals → Intervals
insert_after text saved [] = saved ∷ single text ∷ []
insert_after text saved (x ∷ il) =
    let further = saved ∷ insert_after text x il in
    if ltb saved.to text && ltb text x.from then saved ∷ single text ∷ x ∷ il else further

-- the branch `bound == 0`
unfoldable pub new_interval : ℕ → Intervals → Intervals
new_interval text [] = single text ∷ []
new_interval text (x ∷ il) =
    if ltb text x.from then single text ∷ x ∷ il else insert_after text x il

-- the branch `bound == 1`
unfoldable pub extend_interval : ℕ → Intervals → Intervals
extend_interval text [] = []
extend_interval text (x ∷ il) =
    if x.from == text + 1
    then record x { from = text } ∷ il
    else if x.to + 1 == text
    then record x { to = text } ∷ il
    else x ∷ extend_interval text il

-- the branch `bound == 2`; with no next interval it reads through a null pointer
unfoldable pub merge_intervals : ℕ → Intervals → Option Intervals
merge_intervals text [] = some []
merge_intervals text (x ∷ []) = if x.to + 1 == text then none else some (x ∷ [])
merge_intervals text (x ∷ y ∷ il) =
    let rest = (do r ← merge_intervals text (y ∷ il); some (x ∷ r)) in
    if x.to + 1 == text then some (record x { to = y.to } ∷ il) else rest

-- what mark_as_read does to the list of a conference in which the text is not read
unfoldable pub mark : ℕ → Intervals → Option Intervals
mark text il =
    if bound text il == 0
    then some (new_interval text il)
    else if bound text il == 1
    then some (extend_interval text il)
    else if bound text il == 2
    then merge_intervals text il
    else some il

-- what mark_as_unread does to the list: the first interval that holds the text is removed,
-- shortened or split
unfoldable pub unmark : ℕ → Intervals → Intervals
unmark text [] = []
unmark text (x ∷ il) =
    if holds text x
    then (if x.from == x.to
        then il
        else if x.from == text
        then record x { from = x.from + 1 } ∷ il
        else if x.to == text
        then record x { to = x.to - 1 } ∷ il
        else record x { to = text - 1 } ∷ record { from = text + 1; to = x.to } ∷ il)
    else x ∷ unmark text il
