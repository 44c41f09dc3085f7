-- ===== src/Reading/Refines.antt =====
-- mark_as_read and mark_as_unread (text.c) as operations on the set of read texts.
use mathlib.Core.Path.{subst}
use sklaffkom.Base.{
  ℕ, ◌≤◌, Bool, true, false, ◌&&◌, ◌||◌, not, ◌≡◌, refl, ap, ◌∙◌, none, some, List, ◌∷◌, arith,
  ◌==◌, if◌then◌else◌, inl, inr, Bool-cases, Option-cases, pos,
}
use sklaffkom.Confs.Search.{render, lookup, put}
use sklaffkom.Confs.{ConfsEntry}
use sklaffkom.Intervals.Marking.Cases.{marked}
use sklaffkom.Intervals.Marking.{covers-marked, IsSeparated-marked}
use sklaffkom.Intervals.Unmarking.{unmark_lem}
use sklaffkom.Intervals.{covers, unmark}
use sklaffkom.Libc.{long_max}
use sklaffkom.RawIo.{Calls, Works}
use sklaffkom.Reading.Bounds.{IntervalsFit-marked, IntervalsFit-unmark}
use sklaffkom.Reading.Marks.{
  mark_missing, mark_already, mark_new, unmark_missing, unmark_already, unmark_new,
}
use sklaffkom.Reading.Spec.{
  AllWellFormed, is_member, is_read, read_in, is_some, lookup-IsWellFormed, AllWellFormed-put,
  is_read-put, is_member-put,
}
use sklaffkom.Reading.{mark_as_read, mark_as_unread}

-- `new` differs from `old` in that the text of the conference is read, if the user is a member.
pub record Marks (text conf : ℕ) (old new : List ConfsEntry) : Type 0 where
  pub well_formed : AllWellFormed new
  pub members : (c : ℕ) → is_member c new ≡ is_member c old
  pub texts :
      (c u : ℕ)
      → is_read c u new ≡ (is_read c u old || (is_member conf old && (conf == c && u == text)))

-- `new` differs from `old` in that the text of the conference is not read.
pub record Unmarks (text conf : ℕ) (old new : List ConfsEntry) : Type 0 where
  pub well_formed : AllWellFormed new
  pub members : (c : ℕ) → is_member c new ≡ is_member c old
  pub texts : (c u : ℕ) → is_read c u new ≡ (is_read c u old && not (conf == c && u == text))

Bool-swap : (a b : Bool) → (a || b) ≡ (b || a)
Bool-swap a b = ground arith

Marks-already :
    (text conf : ℕ) (cse : ConfsEntry) (es : List ConfsEntry)
    → AllWellFormed es
    → lookup conf es ≡ some cse
    → covers text cse.il ≡ true
    → Marks text conf es es
Marks-already text conf cse es w h c = record {
  well_formed = w;
  members = λ d. refl;
  texts = λ d u. elim (Bool-cases (conf == d && u == text)) [
    | inl here ↦
        let same_conf : conf ≡ d = ground arith in
        let same_text : text ≡ u = ground arith in
        let known : is_read d u es ≡ true =
          subst (λ a. is_read a u es ≡ true) same_conf
            (subst (λ v. is_read conf v es ≡ true) same_text (ap (read_in text) h ∙ c)) in
        ground arith
    | inr there ↦ rw there (ground arith)
  ];
}

Marks-missing :
    (text conf : ℕ) (es : List ConfsEntry)
    → AllWellFormed es
    → lookup conf es ≡ none
    → Marks text conf es es
Marks-missing text conf es w h = record {
  well_formed = w;
  members = λ d. refl;
  texts = λ d u. rw h (ground arith);
}

-- what the looked-up entry says of a conference with the same number
pub read_here :
    (conf d u : ℕ) (cse : ConfsEntry) (es : List ConfsEntry)
    → lookup conf es ≡ some cse
    → (conf == d) ≡ true
    → is_read d u es ≡ covers u cse.il
read_here conf d u cse es h here =
    let same : d ≡ conf = ground arith in ap (λ n. is_read n u es) same ∙ ap (read_in u) h

pub Marks-new :
    (text conf : ℕ) (cse : ConfsEntry) (es : List ConfsEntry)
    → AllWellFormed es
    → 1 ≤ text
    → text ≤ long_max
    → lookup conf es ≡ some cse
    → Marks text conf es (put (record cse { il = marked text cse.il }) es)
Marks-new text conf cse es w low high h =
    let (well, num) = lookup-IsWellFormed conf cse es w h in
    record {
      well_formed =
          AllWellFormed-put _ es
            (record {
              fits = (well.fits.0, IntervalsFit-marked text cse.il high well.fits.1);
              ordered = IsSeparated-marked text 1 cse.il low well.ordered;
            })
            w;
      members = λ d. is_member-put conf d cse (marked text cse.il) es h num;
      texts = λ d u.
          is_read-put conf d u cse (marked text cse.il) es h num ∙ elim (Bool-cases (conf == d)) [
            | inl here ↦
                let known = read_here conf d u cse es h here in
                let member : is_member conf es ≡ true = ap is_some h in
                rw (here, known, member, covers-marked text 1 u cse.il well.ordered)
                  (Bool-swap (u == text) (covers u cse.il))
            | inr there ↦ rw there (ground arith)
          ];
    }

Unmarks-without :
    (text conf : ℕ) (es : List ConfsEntry)
    → AllWellFormed es
    → is_read conf text es ≡ false
    → Unmarks text conf es es
Unmarks-without text conf es w c = record {
  well_formed = w;
  members = λ d. refl;
  texts = λ d u. elim (Bool-cases (conf == d && u == text)) [
    | inl here ↦
        let same_conf : conf ≡ d = ground arith in
        let same_text : text ≡ u = ground arith in
        let known : is_read d u es ≡ false =
          subst (λ a. is_read a u es ≡ false) same_conf
            (subst (λ v. is_read conf v es ≡ false) same_text c) in
        rw known
    | inr there ↦ rw there (ground arith)
  ];
}

Unmarks-new :
    (text conf : ℕ) (cse : ConfsEntry) (es : List ConfsEntry)
    → AllWellFormed es
    → lookup conf es ≡ some cse
    → Unmarks text conf es (put (record cse { il = unmark text cse.il }) es)
Unmarks-new text conf cse es w h =
    let (well, num) = lookup-IsWellFormed conf cse es w h in
    let (ordered, covers_new) = unmark_lem text 1 cse.il well.ordered in
    record {
      well_formed =
          AllWellFormed-put _ es
            (record {
              fits = (well.fits.0, IntervalsFit-unmark text cse.il well.fits.1);
              ordered = ordered;
            })
            w;
      members = λ d. is_member-put conf d cse (unmark text cse.il) es h num;
      texts = λ d u.
          is_read-put conf d u cse (unmark text cse.il) es h num ∙ elim (Bool-cases (conf == d)) [
            | inl here ↦
                let known = read_here conf d u cse es h here in
                rw (here, known, covers_new u) (ground arith)
            | inr there ↦ rw there (ground arith)
          ];
    }

-- mark_as_read on the bytes of a well-formed file of at least one entry, where every system call
-- succeeds and the text is from 1 to LONG_MAX: it returns 1 if the user is a member of the conference
-- and had not read the text, and 0 otherwise, and leaves the bytes of a well-formed file with the
-- same memberships, in which the read texts are those of the old file, and this one if the user is a
-- member.
pub mark_as_read-Marks :
    (calls : Calls) (text conf : ℕ) (e : ConfsEntry) (es : List ConfsEntry)
    → Works calls
    → AllWellFormed (e ∷ es)
    → 1 ≤ text
    → text ≤ long_max
    → (new : List ConfsEntry) × (mark_as_read calls text conf (render (e ∷ es))
        ≡ some (
          if is_member conf (e ∷ es) && not (is_read conf text (e ∷ es)) then pos 1 else pos 0,
          render new,
        ))
      × Marks text conf (e ∷ es) new
mark_as_read-Marks calls text conf e es works w low high =
    elim (Option-cases (lookup conf (e ∷ es))) [
      | inl h ↦ (
        e ∷ es,
        mark_missing works text conf e es w h ∙ rw h,
        Marks-missing text conf (e ∷ es) w h,
      )
      | inr (cse, h) ↦ elim (Bool-cases (covers text cse.il)) [
        | inl c ↦ (
          e ∷ es,
          mark_already works text conf e es w cse h c ∙ rw (h, c),
          Marks-already text conf cse (e ∷ es) w h c,
        )
        | inr c ↦ (
          put (record cse { il = marked text cse.il }) (e ∷ es),
          mark_new works text conf e es w cse h (omega arith) c ∙ rw (h, c),
          Marks-new text conf cse (e ∷ es) w low high h,
        )
      ]
    ]

-- mark_as_unread on the bytes of a well-formed file of at least one entry, where every system call
-- succeeds: it returns 1 if the text was read in the conference and 0 otherwise, and leaves the bytes
-- of a well-formed file with the same memberships, in which the read texts are those of the old file
-- other than this one.
pub mark_as_unread-Unmarks :
    (calls : Calls) (text conf : ℕ) (e : ConfsEntry) (es : List ConfsEntry)
    → Works calls
    → AllWellFormed (e ∷ es)
    → (new : List ConfsEntry) × (mark_as_unread calls text conf (render (e ∷ es))
        ≡ some (if is_read conf text (e ∷ es) then pos 1 else pos 0, render new))
      × Unmarks text conf (e ∷ es) new
mark_as_unread-Unmarks calls text conf e es works w = elim (Option-cases (lookup conf (e ∷ es))) [
  | inl h ↦ (
    e ∷ es,
    unmark_missing works text conf e es w h ∙ rw h,
    Unmarks-without text conf (e ∷ es) w (ap (read_in text) h),
  )
  | inr (cse, h) ↦ elim (Bool-cases (covers text cse.il)) [
    | inl c ↦ (
      put (record cse { il = unmark text cse.il }) (e ∷ es),
      unmark_new works text conf e es w cse h c ∙ rw (h, c),
      Unmarks-new text conf cse (e ∷ es) w h,
    )
    | inr c ↦ (
      e ∷ es,
      unmark_already works text conf e es w cse h c ∙ rw (h, c),
      Unmarks-without text conf (e ∷ es) w (ap (read_in text) h ∙ c),
    )
  ]
]
