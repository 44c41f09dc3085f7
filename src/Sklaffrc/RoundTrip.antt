-- ===== src/Sklaffrc/RoundTrip.antt =====
-- read_sklaffrc of user.c on the file that write_sklaffrc writes.
use mathlib.Core.Path.{subst}
use sklaffkom.Base.{
  ℕ, ◌≡◌, ◌⊎◌, refl, sym, ap, ◌∙◌, ℤ, [], ◌∷◌, ◌++◌, true, false, Bool, ◌&&◌, ◌||◌, not, some, none,
  List, Bytes, Bool-cases, inl, inr, All, is_empty, if◌then◌else◌, arith,
}
use sklaffkom.Libc.{same_string}
use sklaffkom.Sklaffrc.{
  Heading, adress, numlines, heading_name, same_heading, headings, find_heading, Settings,
  scan_file, start_scan, cleared, read_sklaffrc, written_headings, written_fields, sklaffrc_text,
  scan_round, before_mark, at_mark, new_heading,
}
use sklaffkom.Sklaffrc.Steps.{
  FitsField, put_field, behind_text, scan_file-entry, scan_file-end, scan_file-next,
  scan_file-first,
}

-- what the entries of some headings leave behind
abbrev stored : List Heading → (Heading → Bytes) → Settings → Settings
stored [] field rc = rc
stored (h ∷ hs) field rc =
    stored hs field (if is_empty (field h) then rc else put_field h (field h) rc)

-- the text is a field's, or no entry is written for it
abbrev Fitting : (Heading → Bytes) → Heading → Type 0
Fitting field h = (is_empty (field h) ≡ true) ⊎ FitsField h (field h)

Bytes-cases : (t : Bytes) → (t ≡ []) ⊎ ((c : ℕ) × (s : Bytes) × (t ≡ c ∷ s))
Bytes-cases [] = inl refl
Bytes-cases (c ∷ s) = inr (c, s, refl)

written_entry-none :
    (h : Heading) (hs : List Heading) (field : Heading → Bytes)
    → field h ≡ []
    → written_fields (h ∷ hs) field ≡ written_fields hs field
unfolding written_fields
written_entry-none h hs field e = rw e refl

written_entry-some :
    (h : Heading) (hs : List Heading) (field : Heading → Bytes) (c : ℕ) (s : Bytes)
    → field h ≡ c ∷ s
    → written_fields (h ∷ hs) field
      ≡ b'!'
        ∷ b'['
        ∷ (heading_name h ++ b']' ∷ b'\n' ∷ ((c ∷ s) ++ b'\n' ∷ written_fields hs field))
unfolding written_fields
written_entry-some h hs field c s e = rw e refl

fits_cons :
    (field : Heading → Bytes) (h : Heading) (c : ℕ) (s : Bytes)
    → field h ≡ c ∷ s
    → Fitting field h
    → FitsField h (c ∷ s)
fits_cons field h c s e (inl empty) = let clash : false ≡ true = rw e at empty in cc
fits_cons field h c s e (inr fits) = subst (λ t. FitsField h t) e fits

-- behind a text, the entries that follow are stored one after another
scan_file-written :
    (hs : List Heading) (field : Heading → Bytes) (h : Heading) (t : Bytes) (rc : Settings)
    → FitsField h t
    → All (Fitting field) hs
    → scan_file (written_fields hs field) (behind_text h t rc)
      ≡ some (stored hs field (put_field h t rc))
scan_file-written [] field h t rc ft fits = unfold written_fields in scan_file-end h t rc ft
scan_file-written (k ∷ hs) field h t rc ft (fk, fits) = elim (Bytes-cases (field k)) [
  | inl e ↦ rw (written_entry-none k hs field e, e) (scan_file-written hs field h t rc ft fits)
  | inr (c, s, e) ↦
      let fc = fits_cons field k c s e fk in
      rw (written_entry-some k hs field c s e, e)
        (scan_file-next h t rc _ ft
          ∙ scan_file-entry k (some h) _ (put_field h t rc) c s (written_fields hs field)
              fc.unmarked
          ∙ scan_file-written hs field k (c ∷ s) (put_field h t rc) fc fits)
]

scan_file-fields :
    (hs : List Heading) (field : Heading → Bytes) (rc : Settings)
    → All (Fitting field) hs
    → scan_file (written_fields hs field) (start_scan none rc) ≡ some (stored hs field rc)
scan_file-fields [] field rc fits =
    unfold written_fields scan_file scan_round before_mark at_mark new_heading in refl
scan_file-fields (k ∷ hs) field rc (fk, fits) = elim (Bytes-cases (field k)) [
  | inl e ↦ rw (written_entry-none k hs field e, e) (scan_file-fields hs field rc fits)
  | inr (c, s, e) ↦
      let fc = fits_cons field k c s e fk in
      rw (written_entry-some k hs field c s e, e)
        (scan_file-first rc _
          ∙ scan_file-entry k none _ rc c s (written_fields hs field) fc.unmarked
          ∙ scan_file-written hs field k (c ∷ s) rc fc fits)
]

same_string_lem : (s t : Bytes) → same_string s t ≡ true → s ≡ t
same_string_lem [] [] h = refl
same_string_lem [] (b ∷ t) h = cc
same_string_lem (a ∷ s) [] h = cc
same_string_lem (a ∷ s) (b ∷ t) h = ground (arith, same_string_lem s t)

find_heading-name : (h : Heading) → find_heading (heading_name h) headings ≡ some h
find_heading-name adress = refl
find_heading-name h = refl

-- no two headings are called the same
same_heading_lem : (h k : Heading) → same_heading h k ≡ true → h ≡ k
same_heading_lem h k e =
    let same : some h ≡ some k =
      sym (find_heading-name h)
      ∙ ap (λ (n : Bytes). find_heading n headings)
          (same_string_lem (heading_name h) (heading_name k) e)
      ∙ find_heading-name k in
    cc

abbrev among : Heading → List Heading → Bool
among k [] = false
among k (h ∷ hs) = same_heading h k || among k hs

-- one entry that is stored or left out
next_rc-field :
    (empty : Bool) (h k : Heading) (t : Bytes) (rc : Settings)
    → (if empty then rc else put_field h t rc).field k
      ≡ (if same_heading h k && not empty then t else rc.field k)
next_rc-field true h k t rc = elim (Bool-cases (same_heading h k)) [
  | inl e ↦ rw e refl
  | inr e ↦ rw e refl
]
next_rc-field false h k t rc = elim (Bool-cases (same_heading h k)) [
  | inl e ↦ rw e refl
  | inr e ↦ rw e refl
]

next_rc-lines :
    (empty : Bool) (h : Heading) (t : Bytes) (rc : Settings)
    → (if empty then rc else put_field h t rc).lines ≡ rc.lines
next_rc-lines true h t rc = refl
next_rc-lines false h t rc = refl

later_or_here :
    (a e : Bool) (x y : Bytes)
    → (if a && not e then x else (if true && not e then x else y))
      ≡ (if (true || a) && not e then x else y)
later_or_here true true x y = refl
later_or_here true false x y = refl
later_or_here false true x y = refl
later_or_here false false x y = refl

-- the field of a heading after all entries are stored
stored-field :
    (hs : List Heading) (field : Heading → Bytes) (rc : Settings) (k : Heading)
    → (stored hs field rc).field k
      ≡ (if among k hs && not (is_empty (field k)) then field k else rc.field k)
stored-field [] field rc k = refl
stored-field (h ∷ hs) field rc k =
    let next = if is_empty (field h) then rc else put_field h (field h) rc in
    let a = among k hs in
    let e = is_empty (field k) in
    stored-field hs field next k
    ∙ ap (λ (y : Bytes). if a && not e then field k else y)
        (next_rc-field (is_empty (field h)) h k (field h) rc)
    ∙ elim (Bool-cases (same_heading h k)) [
      | inl m ↦
          let same : field h ≡ field k = ap field (same_heading_lem h k m) in
          rw (m, same) (later_or_here a e (field k) (rc.field k))
      | inr m ↦ rw m refl
    ]

stored-lines :
    (hs : List Heading) (field : Heading → Bytes) (rc : Settings)
    → (stored hs field rc).lines ≡ rc.lines
stored-lines [] field rc = refl
stored-lines (h ∷ hs) field rc =
    stored-lines hs field (if is_empty (field h) then rc else put_field h (field h) rc)
    ∙ next_rc-lines (is_empty (field h)) h (field h) rc

-- every field is written
among_written : (k : Heading) → same_heading k numlines ≡ false → among k written_headings ≡ true
among_written numlines h = cc
among_written k h = refl

-- a text that write_sklaffrc can write so that it is read back: none, or one that fits its field, that
-- holds no NUL, and in which no line starts with `![`
pub record IsStorable (rc : Settings) : Type 0 where
  pub fits :
      (h : Heading)
      → same_heading h numlines ≡ false
      → (is_empty (rc.field h) ≡ true) ⊎ FitsField h (rc.field h)

entries_fit :
    (rc : Settings) (hs : List Heading)
    → IsStorable rc
    → All (λ h. same_heading h numlines ≡ false) hs
    → All (Fitting rc.field) hs
entries_fit rc [] is fs = tt
entries_fit rc (h ∷ hs) is (f, fs) = (is.fits h f, entries_fit rc hs is fs)

written_fields-fields : All (λ h. same_heading h numlines ≡ false) written_headings
written_fields-fields = (
  refl,
  (
    refl,
    (
      refl,
      (
        refl,
        (
          refl,
          (
            refl,
            (
              refl,
              (
                refl,
                (
                  refl,
                  (
                    refl,
                    (refl, (refl, (refl, (refl, (refl, (refl, (refl, (refl, (refl, tt))))))))),
                  ),
                ),
              ),
            ),
          ),
        ),
      ),
    ),
  ),
)

-- Where the user's file holds what write_sklaffrc wrote, and the file of the whole system can be read
-- and its entries fit, read_sklaffrc gives back each field that was not empty, byte for byte, and for
-- one that was empty the text of the system's file. Each text fits its field and holds no NUL, and
-- none of its lines starts with `![`. Numlines stays as the system's file left it.
pub read_sklaffrc-sklaffrc_text :
    (global : Bytes) (lines : ℤ) (defaults rc : Settings)
    → scan_file global (start_scan none (cleared lines)) ≡ some defaults
    → IsStorable rc
    → (out : Settings) × (read_sklaffrc (some global) (some (sklaffrc_text rc)) lines ≡ some out)
      × ((k : Heading)
          → same_heading k numlines ≡ false
          → out.field k ≡ (if is_empty (rc.field k) then defaults.field k else rc.field k))
      × (out.lines ≡ defaults.lines)
unfolding read_sklaffrc sklaffrc_text
read_sklaffrc-sklaffrc_text global lines defaults rc e is = (
  stored written_headings rc.field defaults,
  rw e (
      scan_file-fields written_headings rc.field defaults
        (entries_fit rc written_headings is written_fields-fields)),
  λ k h.
      stored-field written_headings rc.field defaults k
      ∙ rw (among_written k h) (flip (is_empty (rc.field k)) (rc.field k) (defaults.field k)),
  stored-lines written_headings rc.field defaults,
)
  where
    flip : (b : Bool) (x y : Bytes) → (if true && not b then x else y) ≡ (if b then y else x)
    flip true x y = refl
    flip false x y = refl
