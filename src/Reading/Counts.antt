-- ===== src/Reading/Counts.antt =====
-- num_unread and member_of (conf.c) on the bytes of a well-formed file.
use sklaffkom.Base.{
  ℕ, zero, suc, ◌+◌, ◌<◌, ◌≡◌, refl, some, List, [], ◌∷◌, arith, All, length, if◌then◌else◌, pos,
}
use sklaffkom.Confs.Codec.{Fits, get_confs_entry-stringify}
use sklaffkom.Confs.Search.{render, lookup, length-render}
use sklaffkom.Confs.{ConfsEntry, get_confs_entry}
use sklaffkom.Intervals.Counting.{EndsBy, count_unread, subtract_lengths-count_unread}
use sklaffkom.Libc.{strchr_next}
use sklaffkom.RawIo.{Calls, Works, open_file-Works, read_file-Works}
use sklaffkom.Reading.Marks.{find_present}
use sklaffkom.Reading.Spec.{
  AllWellFormed, AllWellFormed-Fits, is_member, is_read, lookup-IsWellFormed,
}
use sklaffkom.Reading.{num_unread, member_loop, member_of}

-- the number of the texts 1, …, n of a conference that are not read
abbrev pub texts_unread : ℕ → ℕ → List ConfsEntry → ℕ
texts_unread zero conf es = 0
texts_unread (suc n) conf es = (if is_read conf (suc n) es then 0 else 1) + texts_unread n conf es

texts_unread-count_unread :
    (n conf : ℕ) (cse : ConfsEntry) (es : List ConfsEntry)
    → lookup conf es ≡ some cse
    → texts_unread n conf es ≡ count_unread n cse.il
texts_unread-count_unread zero conf cse es h = refl
texts_unread-count_unread (suc n) conf cse es h = rw (h, texts_unread-count_unread n conf cse es h)

-- num_unread on a well-formed file of at least one entry, where every system call succeeds: for a
-- member of the conference who has read no text after `last`, it returns the number of the texts
-- 1, …, last that the user has not read.
pub num_unread-texts_unread :
    (calls : Calls) (conf last : ℕ) (e cse : ConfsEntry) (es : List ConfsEntry)
    → Works calls
    → AllWellFormed (e ∷ es)
    → lookup conf (e ∷ es) ≡ some cse
    → EndsBy last cse.il
    → num_unread calls conf last (render (e ∷ es)) ≡ some (pos (texts_unread last conf (e ∷ es)))
unfolding num_unread
num_unread-texts_unread calls conf last e cse es works w h ends =
    let (well, num) = lookup-IsWellFormed conf cse (e ∷ es) w h in
    rw
      (
        open_file-Works works,
        read_file-Works works,
        num_unread,
        works.closes,
        find_present conf e cse es w h,
        subtract_lengths-count_unread last cse.il well.ordered ends,
        texts_unread-count_unread last conf cse (e ∷ es) h,
      )
      refl

member_loop-is_member :
    (f conf : ℕ) (es : List ConfsEntry)
    → length es < f
    → All Fits es
    → member_loop f conf (render es) ≡ some (if is_member conf es then pos 1 else pos 0)
unfolding member_loop
member_loop-is_member zero conf es h fits = elim h [ ]
member_loop-is_member (suc f) conf [] h fits = unfold get_confs_entry strchr_next in refl
member_loop-is_member (suc f) conf (e ∷ es) h fits =
    rw (get_confs_entry-stringify e (render es) fits.0)
      (ground (arith, member_loop-is_member f conf es (omega arith) fits.1))

-- member_of on a well-formed file, the empty one included, where every system call succeeds: 1 if
-- the file has an entry of the conference, 0 if it has none.
pub member_of-is_member :
    (calls : Calls) (conf : ℕ) (es : List ConfsEntry)
    → Works calls
    → AllWellFormed es
    → member_of calls conf (render es) ≡ some (if is_member conf es then pos 1 else pos 0)
unfolding member_of
member_of-is_member calls conf es works w =
    rw (open_file-Works works, read_file-Works works, member_of, works.closes)
      (member_loop-is_member (suc (length (render es))) conf es (omega (arith, length-render es))
        (AllWellFormed-Fits es w))
