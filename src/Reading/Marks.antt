-- ===== src/Reading/Marks.antt =====
-- mark_as_read, mark_as_unread and check_if_read (text.c) on the bytes of a well-formed `confs` file,
-- case by case.
use sklaffkom.Base.{
  ℕ, ◌≡◌, refl, ap, ◌∙◌, none, some, List, ◌∷◌, pos, false, true, if◌then◌else◌, Option-cases, inl,
  inr, ◌≤◌, ◌+◌,
}
use sklaffkom.Confs.Search.{
  render, lookup, lookup-Splits, lookup_rest-none, find_confs-render, as_lookup, put,
}
use sklaffkom.Confs.{ConfsEntry, found, missing, find_confs}
use sklaffkom.Confs.Replace.{replaced-render}
use sklaffkom.Intervals.Marking.Cases.{marked, mark-marked}
use sklaffkom.Intervals.{covers, unmark}
use sklaffkom.RawIo.{write_file-Works, Calls, Works, open_file-Works, read_file-Works}
use sklaffkom.Libc.{long_max}
use sklaffkom.Reading.Room.{HasRoom-marked, HasRoom-unmark}
use sklaffkom.Reading.Spec.{AllWellFormed, AllWellFormed-Fits, lookup-IsWellFormed, is_read}
use sklaffkom.Reading.{mark_as_read, covers, mark_as_unread, check_if_read, unmark}

-- the outcome of the loop over the entries
pub find_missing :
    (conf : ℕ) (e : ConfsEntry) (es : List ConfsEntry)
    → AllWellFormed (e ∷ es)
    → lookup conf (e ∷ es) ≡ none
    → find_confs conf (render (e ∷ es)) ≡ missing
find_missing conf e es w h =
    find_confs-render conf e es (AllWellFormed-Fits (e ∷ es) w)
    ∙ ap as_lookup (lookup_rest-none conf (e ∷ es) h)

pub find_present :
    (conf : ℕ) (e cse : ConfsEntry) (es : List ConfsEntry)
    → AllWellFormed (e ∷ es)
    → (h : lookup conf (e ∷ es) ≡ some cse)
    → find_confs conf (render (e ∷ es))
      ≡ found cse (some (render (lookup-Splits conf (e ∷ es) cse h).post))
find_present conf e cse es w h =
    find_confs-render conf e es (AllWellFormed-Fits (e ∷ es) w)
    ∙ ap as_lookup (lookup-Splits conf (e ∷ es) cse h).rest_is

-- A file of at least one entry, and system calls that succeed.
module _ {calls : Calls} (works : Works calls) (text conf : ℕ) (e : ConfsEntry)
    (es : List ConfsEntry) (w : AllWellFormed (e ∷ es)) where
  pub mark_missing :
      lookup conf (e ∷ es) ≡ none
      → mark_as_read calls text conf (render (e ∷ es)) ≡ some (pos 0, render (e ∷ es))
  unfolding mark_as_read
  mark_missing h =
      rw
        (
          open_file-Works works,
          read_file-Works works,
          mark_as_read,
          find_missing conf e es w h,
          works.closes,
        )
        refl

  module _ (cse : ConfsEntry) (h : lookup conf (e ∷ es) ≡ some cse) where
    pub mark_already :
        covers text cse.il ≡ true
        → mark_as_read calls text conf (render (e ∷ es)) ≡ some (pos 0, render (e ∷ es))
    unfolding mark_as_read
    mark_already c =
        rw
          (
            open_file-Works works,
            read_file-Works works,
            mark_as_read,
            find_present conf e cse es w h,
            c,
            works.closes,
          )
          refl

    pub mark_new :
        text ≤ long_max + 1
        → covers text cse.il ≡ false
        → mark_as_read calls text conf (render (e ∷ es))
          ≡ some (pos 1, render (put (record cse { il = marked text cse.il }) (e ∷ es)))
    unfolding mark_as_read
    mark_new small c =
        let (well, num) = lookup-IsWellFormed conf cse (e ∷ es) w h in
        let new : ConfsEntry = record cse { il = marked text cse.il } in
        let here : lookup new.num (e ∷ es) ≡ some cse = ap (λ n. lookup n (e ∷ es)) num ∙ h in
        let room = HasRoom-marked text cse small in
        rw
          (
            open_file-Works works,
            read_file-Works works,
            mark_as_read,
            find_present conf e cse es w h,
            c,
            mark-marked text 1 cse.il well.ordered c,
            replaced-render new cse (e ∷ es) (AllWellFormed-Fits (e ∷ es) w) room here,
            write_file-Works works,
            works.closes,
          )
          refl

    pub unmark_already :
        covers text cse.il ≡ false
        → mark_as_unread calls text conf (render (e ∷ es)) ≡ some (pos 0, render (e ∷ es))
    unfolding mark_as_unread
    unmark_already c =
        rw
          (
            open_file-Works works,
            read_file-Works works,
            mark_as_unread,
            find_present conf e cse es w h,
            c,
            works.closes,
          )
          refl

    pub unmark_new :
        covers text cse.il ≡ true
        → mark_as_unread calls text conf (render (e ∷ es))
          ≡ some (pos 1, render (put (record cse { il = unmark text cse.il }) (e ∷ es)))
    unfolding mark_as_unread
    unmark_new c =
        let (well, num) = lookup-IsWellFormed conf cse (e ∷ es) w h in
        let new : ConfsEntry = record cse { il = unmark text cse.il } in
        let here : lookup new.num (e ∷ es) ≡ some cse = ap (λ n. lookup n (e ∷ es)) num ∙ h in
        let room = HasRoom-unmark text cse well.fits.1 in
        rw
          (
            open_file-Works works,
            read_file-Works works,
            mark_as_unread,
            find_present conf e cse es w h,
            c,
            replaced-render new cse (e ∷ es) (AllWellFormed-Fits (e ∷ es) w) room here,
            write_file-Works works,
            works.closes,
          )
          refl

  pub unmark_missing :
      lookup conf (e ∷ es) ≡ none
      → mark_as_unread calls text conf (render (e ∷ es)) ≡ some (pos 0, render (e ∷ es))
  unfolding mark_as_unread
  unmark_missing h =
      rw
        (
          open_file-Works works,
          read_file-Works works,
          mark_as_unread,
          find_missing conf e es w h,
          works.closes,
        )
        refl

  -- check_if_read on a well-formed file of at least one entry, where every system call succeeds,
  -- returns 1 if the text is read in the conference, and 0 if it is not or the user is no member.
  pub check_if_read-is_read :
      check_if_read calls text conf (render (e ∷ es))
      ≡ some (if is_read conf text (e ∷ es) then pos 1 else pos 0)
  unfolding check_if_read
  check_if_read-is_read = elim (Option-cases (lookup conf (e ∷ es))) [
    | inl h ↦
        rw
          (
            open_file-Works works,
            read_file-Works works,
            check_if_read,
            find_missing conf e es w h,
            works.closes,
            h,
          )
          refl
    | inr (cse, h) ↦
        rw
          (
            open_file-Works works,
            read_file-Works works,
            check_if_read,
            find_present conf e cse es w h,
            works.closes,
            h,
          )
          refl
  ]
