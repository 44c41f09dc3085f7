-- ===== src/Tosser/Spool.antt =====
-- The files of the spool directory of an area, sorted by their numbers: `msgitem_filename_number` and
-- `sort_msgitems_by_number` of ftntoss.c.
use mathlib.Core.List.{Perm, perm_middle}
use mathlib.Core.Path.{subst}
use mathlib.Core.List.Perm
use sklaffkom.Base.{
  Bool, true, false, ◌&&◌, ◌||◌, ◌≡◌, Option, none, some, List, [], ◌∷◌, ◌++◌, Bytes, append-nil,
  if◌then◌else◌, ℤ, pos, negsuc, codes, ltb_ℤ, eqb_ℤ, leb_ℤ, All, Bool-cases, inl, inr, arith,
}
use sklaffkom.Libc.{same_letters, strtol_errno}
use sklaffkom.Tosser.{MsgItem}

-- the number of a file `<number>.msg`, or 0
abbrev pub number_before : Option (ℤ × Bytes) → ℤ
number_before none = pos 0
number_before (some (n, endp)) = if same_letters endp (codes ".msg") then n else pos 0

unfoldable pub msgitem_filename_number : Bytes → ℤ
msgitem_filename_number filename = number_before (strtol_errno filename)

-- whether the loop stops before an item with the number `curnum`
abbrev pub stops_before : ℤ → ℤ → Bool
stops_before itemnum curnum =
    (ltb_ℤ (pos 0) itemnum && ltb_ℤ (pos 0) curnum && ltb_ℤ itemnum curnum)
    || (eqb_ℤ itemnum (pos 0) && ltb_ℤ (pos 0) curnum)

unfoldable pub insert_msgitem : MsgItem → List MsgItem → List MsgItem
insert_msgitem item [] = item ∷ []
insert_msgitem item (x ∷ xs) =
    let further = insert_msgitem item xs in
    if stops_before (msgitem_filename_number item.filename) (msgitem_filename_number x.filename)
    then item ∷ x ∷ xs
    else x ∷ further

-- the loop that moves the items of a list into the sorted one
unfoldable pub sort_loop : List MsgItem → List MsgItem → List MsgItem
sort_loop sorted [] = sorted
sort_loop sorted (item ∷ list) = sort_loop (insert_msgitem item sorted) list

unfoldable pub sort_msgitems_by_number : List MsgItem → List MsgItem
sort_msgitems_by_number list = sort_loop [] list

-- What follows has the same number or a greater one.
abbrev pub IsSorted : List MsgItem → Type 0
IsSorted [] = Unit
IsSorted (x ∷ xs) =
    All
      (λ y. leb_ℤ (msgitem_filename_number x.filename) (msgitem_filename_number y.filename) ≡ true)
      xs
    × IsSorted xs

-- The files have numbers that are not negative.
abbrev pub AllNumbered : List MsgItem → Type 0
AllNumbered = All (λ m. leb_ℤ (pos 0) (msgitem_filename_number m.filename) ≡ true)

insert_msgitem-Perm :
    (item : MsgItem) (xs : List MsgItem) → Perm (insert_msgitem item xs) (item ∷ xs)
unfolding insert_msgitem
insert_msgitem-Perm item [] = Perm.refl _
insert_msgitem-Perm item (x ∷ xs) =
    elim (Bool-cases
      (stops_before (msgitem_filename_number item.filename) (msgitem_filename_number x.filename))) [
        | inl stop ↦ rw stop (Perm.refl _)
        | inr go ↦ rw go (Perm.trans (Perm.cons x (insert_msgitem-Perm item xs)) (Perm.swap _ _ _))
      ]

sort_loop-Perm : (sorted list : List MsgItem) → Perm (sort_loop sorted list) (list ++ sorted)
unfolding sort_loop
sort_loop-Perm sorted [] = Perm.refl sorted
sort_loop-Perm sorted (item ∷ list) =
    Perm.trans (sort_loop-Perm (insert_msgitem item sorted) list) (
      Perm.trans (Perm.append (Perm.refl list) (insert_msgitem-Perm item sorted))
        (perm_middle list sorted))

stops-le :
    (a b : ℤ)
    → leb_ℤ (pos 0) a ≡ true
    → leb_ℤ (pos 0) b ≡ true
    → stops_before a b ≡ true
    → leb_ℤ a b ≡ true
stops-le (pos a) (pos b) ha hb h = ground arith
stops-le (negsuc a) b ha hb h = ground arith
stops-le (pos a) (negsuc b) ha hb h = ground arith

goes_on-le :
    (a b : ℤ)
    → leb_ℤ (pos 0) a ≡ true
    → leb_ℤ (pos 0) b ≡ true
    → stops_before a b ≡ false
    → leb_ℤ b a ≡ true
goes_on-le (pos a) (pos b) ha hb h = ground arith
goes_on-le (negsuc a) b ha hb h = ground arith
goes_on-le (pos a) (negsuc b) ha hb h = ground arith

leb_ℤ-trans : (a b c : ℤ) → leb_ℤ a b ≡ true → leb_ℤ b c ≡ true → leb_ℤ a c ≡ true
leb_ℤ-trans a b c h k = ground arith

-- the number of a file
abbrev number : MsgItem → ℤ
number m = msgitem_filename_number m.filename

All-above :
    (a b : ℤ) (xs : List MsgItem)
    → leb_ℤ a b ≡ true
    → All (λ y. leb_ℤ b (number y) ≡ true) xs
    → All (λ y. leb_ℤ a (number y) ≡ true) xs
All-above a b [] h k = tt
All-above a b (x ∷ xs) h k = (leb_ℤ-trans a b (number x) h k.0, All-above a b xs h k.1)

All-insert :
    (P : MsgItem → Type 0) (item : MsgItem) (xs : List MsgItem)
    → P item
    → All P xs
    → All P (insert_msgitem item xs)
unfolding insert_msgitem
All-insert P item [] h k = (h, tt)
All-insert P item (x ∷ xs) h k = elim (Bool-cases (stops_before (number item) (number x))) [
  | inl stop ↦ rw stop (h, k)
  | inr go ↦ rw go (k.0, All-insert P item xs h k.1)
]

insert_msgitem-IsSorted :
    (item : MsgItem) (xs : List MsgItem)
    → leb_ℤ (pos 0) (number item) ≡ true
    → AllNumbered xs
    → IsSorted xs
    → IsSorted (insert_msgitem item xs)
unfolding insert_msgitem
insert_msgitem-IsSorted item [] h k s = (tt, tt)
insert_msgitem-IsSorted item (x ∷ xs) h k s =
    elim (Bool-cases (stops_before (number item) (number x))) [
      | inl stop ↦
          let le = stops-le (number item) (number x) h k.0 stop in
          rw stop ((le, All-above (number item) (number x) xs le s.0), s)
      | inr go ↦ rw go (
        All-insert (λ y. leb_ℤ (number x) (number y) ≡ true) item xs
            (goes_on-le (number item) (number x) h k.0 go) s.0,
        insert_msgitem-IsSorted item xs h k.1 s.1,
      )
    ]

sort_loop-IsSorted :
    (sorted list : List MsgItem)
    → AllNumbered sorted
    → AllNumbered list
    → IsSorted sorted
    → IsSorted (sort_loop sorted list)
unfolding sort_loop
sort_loop-IsSorted sorted [] h k s = s
sort_loop-IsSorted sorted (item ∷ list) h k s =
    sort_loop-IsSorted (insert_msgitem item sorted) list
      (All-insert (λ m. leb_ℤ (pos 0) (number m) ≡ true) item sorted k.0 h) k.1
      (insert_msgitem-IsSorted item sorted k.0 h s)

-- sort_msgitems_by_number for files whose numbers are not negative: the items of the result are those of
-- the list, each as often as there, and each number is at most all those behind it.
pub sort_msgitems_by_number-IsSorted :
    (list : List MsgItem)
    → AllNumbered list
    → IsSorted (sort_msgitems_by_number list) × Perm (sort_msgitems_by_number list) list
unfolding sort_msgitems_by_number
sort_msgitems_by_number-IsSorted list h = (
  sort_loop-IsSorted [] list tt h tt,
  subst (Perm (sort_loop [] list)) (append-nil list) (sort_loop-Perm [] list),
)
