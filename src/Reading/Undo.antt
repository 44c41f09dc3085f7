-- ===== src/Reading/Undo.antt =====
-- mark_as_unread after mark_as_read (text.c).
use sklaffkom.Base.{
  ℕ, ◌≤◌, true, false, ◌≡◌, refl, ap, ◌∙◌, some, List, [], ◌∷◌, arith, ◌==◌, inl, inr, Bool-cases,
  Bytes, pos, ==_refl, sym,
}
use sklaffkom.Confs.Search.{render, lookup, put, lookup-put}
use sklaffkom.Confs.{ConfsEntry}
use sklaffkom.Intervals.Marking.Cases.{marked}
use sklaffkom.Intervals.Marking.{covers-marked, IsSeparated-marked}
use sklaffkom.Intervals.Order.{separated_unique, IsSeparated}
use sklaffkom.Intervals.Unmarking.{unmark_lem}
use sklaffkom.Intervals.{Intervals, covers, unmark}
use sklaffkom.Libc.{long_max}
use sklaffkom.RawIo.{Calls, Works}
use sklaffkom.Reading.Marks.{mark_new, unmark_new}
use sklaffkom.Reading.Refines.{Marks-new}
use sklaffkom.Reading.Spec.{AllWellFormed, lookup-IsWellFormed}
use sklaffkom.Reading.{mark_as_read, mark_as_unread}

put-put : (a b : ConfsEntry) (es : List ConfsEntry) → a.num ≡ b.num → put a (put b es) ≡ put a es
put-put a b [] h = refl
put-put a b (e ∷ es) h = ground (arith, put-put a b es h)

put-same : (e : ConfsEntry) (es : List ConfsEntry) → lookup e.num es ≡ some e → put e es ≡ es
put-same e [] h = cc
put-same e (d ∷ es) h = ground (arith, put-same e es)

put-cons :
    (n e : ConfsEntry) (es : List ConfsEntry)
    → (d : ConfsEntry) × (ds : List ConfsEntry) × (put n (e ∷ es) ≡ d ∷ ds)
put-cons n e es = elim (Bool-cases (e.num == n.num)) [
  | inl h ↦ (n, es, rw h)
  | inr h ↦ (e, put n es, rw h)
]

unmark-marked :
    (text : ℕ) (il : Intervals)
    → 1 ≤ text
    → IsSeparated 1 il
    → covers text il ≡ false
    → unmark text (marked text il) ≡ il
unmark-marked text il low s c =
    let new = IsSeparated-marked text 1 il low s in
    let (ordered, texts) = unmark_lem text 1 (marked text il) new in
    separated_unique 1 1 (unmark text (marked text il)) il ordered s
      (λ u. ground (arith, texts u, covers-marked text 1 u il s))

-- Marking a text as unread undoes marking it as read, byte for byte: on the bytes of a well-formed
-- file, where every system call succeeds, for a member of the conference who has not read the text,
-- from 1 to LONG_MAX, mark_as_read returns 1 and leaves a file on which mark_as_unread returns 1 and
-- leaves the bytes of the first file.
pub mark_as_unread-mark_as_read :
    (calls : Calls) (text conf : ℕ) (e cse : ConfsEntry) (es : List ConfsEntry)
    → Works calls
    → AllWellFormed (e ∷ es)
    → 1 ≤ text
    → text ≤ long_max
    → lookup conf (e ∷ es) ≡ some cse
    → covers text cse.il ≡ false
    → (new : Bytes) × (mark_as_read calls text conf (render (e ∷ es)) ≡ some (pos 1, new))
      × (mark_as_unread calls text conf new ≡ some (pos 1, render (e ∷ es)))
mark_as_unread-mark_as_read calls text conf e cse es works w low high h c =
    let (well, num) = lookup-IsWellFormed conf cse (e ∷ es) w h in
    let new : ConfsEntry = record cse { il = marked text cse.il } in
    let old_here : lookup new.num (e ∷ es) ≡ some cse = ap (λ n. lookup n (e ∷ es)) num ∙ h in
    let (d, ds, shape) = put-cons new e es in
    let w' : AllWellFormed (d ∷ ds) =
      rw shape at (Marks-new text conf cse (e ∷ es) w low high h).well_formed in
    let here : (new.num == conf) ≡ true = rw num (==_refl conf) in
    let looked : lookup conf (put new (e ∷ es)) ≡ some new =
      lookup-put conf new cse (e ∷ es) old_here ∙ rw here refl in
    let h' : lookup conf (d ∷ ds) ≡ some new = ap (lookup conf) (sym shape) ∙ looked in
    let c' : covers text (marked text cse.il) ≡ true =
      covers-marked text 1 text cse.il well.ordered ∙ ground (arith, ==_refl text) in
    let same : put (record new { il = unmark text new.il }) (d ∷ ds) ≡ e ∷ es =
      ap (put (record new { il = unmark text new.il })) (sym shape)
      ∙ put-put (record new { il = unmark text new.il }) new (e ∷ es) refl
      ∙ ap (λ il. put (record cse { il = il }) (e ∷ es))
          (unmark-marked text cse.il low well.ordered c)
      ∙ put-same cse (e ∷ es) old_here in
    (
      render (d ∷ ds),
      mark_new works text conf e es w cse h (omega arith) c
          ∙ ap (λ l. some (pos 1, render l)) shape,
      unmark_new works text conf d ds w' new h' c' ∙ ap (λ l. some (pos 1, render l)) same,
    )
