-- ===== src/Reading/Listed.antt =====
-- check_if_read (text.c) against the texts that the intervals of a conference stand for, one by one.
use sklaffkom.Base.{
  ℕ, zero, suc, ◌+◌, ◌-◌, Bool, false, ◌&&◌, ◌||◌, ◌≡◌, refl, ap, ◌∙◌, sym, Option, none, some,
  List, [], ◌∷◌, ◌++◌, arith, ltb, leb, ◌==◌, if◌then◌else◌, pos,
}
use sklaffkom.Confs.Search.{render, lookup}
use sklaffkom.Confs.{ConfsEntry}
use sklaffkom.Intervals.{Interval, Intervals, covers, holds}
use sklaffkom.RawIo.{Calls, Works}
use sklaffkom.Reading.Marks.{check_if_read-is_read}
use sklaffkom.Reading.Spec.{AllWellFormed, read_in}
use sklaffkom.Reading.{check_if_read}

-- the numbers `first`, `first + 1`, …, `count` of them
abbrev pub numbers_from : ℕ → ℕ → List ℕ
numbers_from zero first = []
numbers_from (suc count) first = first ∷ numbers_from count (first + 1)

-- every text of the intervals
abbrev pub texts_in : Intervals → List ℕ
texts_in [] = []
texts_in (x ∷ il) = numbers_from (x.to + 1 - x.from) x.from ++ texts_in il

abbrev pub texts_of : Option ConfsEntry → List ℕ
texts_of none = []
texts_of (some e) = texts_in e.il

-- every text that is read in the conference
abbrev pub read_texts : ℕ → List ConfsEntry → List ℕ
read_texts conf es = texts_of (lookup conf es)

abbrev pub includes : ℕ → List ℕ → Bool
includes n [] = false
includes n (m ∷ ms) = m == n || includes n ms

includes-append :
    (n : ℕ) (xs ys : List ℕ) → includes n (xs ++ ys) ≡ (includes n xs || includes n ys)
includes-append n [] ys = refl
includes-append n (x ∷ xs) ys = ground (arith, includes-append n xs ys)

includes-numbers_from :
    (n count first : ℕ)
    → includes n (numbers_from count first) ≡ (leb first n && ltb n (first + count))
includes-numbers_from n zero first = ground arith
includes-numbers_from n (suc count) first =
    ground (arith, includes-numbers_from n count (first + 1))

holds-numbers_from :
    (text : ℕ) (x : Interval)
    → holds text x ≡ includes text (numbers_from (x.to + 1 - x.from) x.from)
holds-numbers_from text x =
    rw (includes-numbers_from text (x.to + 1 - x.from) x.from) (ground arith)

covers-texts_in : (text : ℕ) (il : Intervals) → covers text il ≡ includes text (texts_in il)
unfolding covers
covers-texts_in text [] = refl
covers-texts_in text (x ∷ il) =
    ap (λ b. b || covers text il) (holds-numbers_from text x)
    ∙ ap (λ b. includes text (numbers_from (x.to + 1 - x.from) x.from) || b)
        (covers-texts_in text il)
    ∙ sym (includes-append text (numbers_from (x.to + 1 - x.from) x.from) (texts_in il))

read_in-texts_of : (text : ℕ) (o : Option ConfsEntry) → read_in text o ≡ includes text (texts_of o)
read_in-texts_of text none = refl
read_in-texts_of text (some e) = covers-texts_in text e.il

-- check_if_read on a well-formed file of at least one entry, where every system call succeeds, returns
-- 1 if the text is one of those that the intervals of the conference stand for, written out one by
-- one, and 0 if it is not or the user is no member.
pub check_if_read-read_texts :
    (calls : Calls) (text conf : ℕ) (e : ConfsEntry) (es : List ConfsEntry)
    → Works calls
    → AllWellFormed (e ∷ es)
    → check_if_read calls text conf (render (e ∷ es))
      ≡ some (if includes text (read_texts conf (e ∷ es)) then pos 1 else pos 0)
check_if_read-read_texts calls text conf e es works w =
    check_if_read-is_read works text conf e es w
    ∙ ap (λ b. some (if b then pos 1 else pos 0)) (read_in-texts_of text (lookup conf (e ∷ es)))
