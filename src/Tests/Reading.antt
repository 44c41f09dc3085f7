-- ===== src/Tests/Reading.antt =====
-- The stacks, the interval lists and the `confs` file, of text.c, conf.c and buf.c.
use sklaffkom.Base.{
  ◌≡◌, refl, true, false, some, List, [], ◌∷◌, arith, Bytes, pos, not, ◌&&◌, if◌then◌else◌, ◌||◌,
}
use sklaffkom.Stacks.{
  Session, pop_unread, pop_unread2, pop_read, pop_comment, push_unread, push_unread2, push_read,
  push_comment,
}
use sklaffkom.Stacks.Laws.{pop-push}
use sklaffkom.Intervals.{covers}
use sklaffkom.Confs.{ConfsEntry, replace_confs, stringify_confs_struct, print_intervals}
use sklaffkom.Libc.{print_nat, print_fuel}
use sklaffkom.Confs.Search.{render, put}
use sklaffkom.Confs.Replace.{replace_confs-render}
use sklaffkom.RawIo.{open_file, working, working-Works, locked_within, open_file-locked_within}
use sklaffkom.Reading.{check_if_read, mark_as_read, mark_as_unread, num_unread, member_of}
use sklaffkom.Reading.Spec.{is_member, is_read}
use sklaffkom.Reading.Listed.{check_if_read-read_texts, includes}
use sklaffkom.Reading.Refines.{Marks, Unmarks, mark_as_read-Marks, mark_as_unread-Unmarks}
use sklaffkom.Reading.Counts.{texts_unread, num_unread-texts_unread, member_of-is_member}
use sklaffkom.Reading.Undo.{mark_as_unread-mark_as_read}
use sklaffkom.Tests.{
  read_some, first, second, first-IsWellFormed, second-IsWellFormed, both-AllWellFormed, file,
}

abbrev session : Session
session = record {
  ustack = record { conf = pos 1; num = pos 7 } ∷ [];
  ustack2 = [];
  rstack = record { conf = pos 4; num = pos 2 } ∷ record { conf = pos 1; num = pos 3 } ∷ [];
  cstack = pos 8 ∷ pos 6 ∷ [];
}

pop-push_example :
    (pop_unread (pos 0) (push_unread true (pos 4) (pos 9) session).1 ≡ (pos 9, pos 4, session))
    × (pop_unread2 (pos 0) (push_unread2 true (pos 4) (pos 9) session).1 ≡ (pos 9, pos 4, session))
    × (pop_read (pos 0) (push_read true (pos 4) (pos 9) session).1 ≡ (pos 9, pos 4, session))
    × (pop_comment (push_comment true (pos 9) session).1 ≡ (pos 9, session))
pop-push_example = pop-push (pos 4) (pos 9) (pos 0) session

four_unread : covers 4 read_some ≡ false
unfolding covers
four_unread = refl

abbrev second_read : ConfsEntry
second_read = record { num = 4; il = read_some }

replace_confs-render_example :
    replace_confs second_read file ≡ some (render (put second_read (first ∷ second ∷ [])))
unfolding stringify_confs_struct print_intervals print_nat print_fuel
replace_confs-render_example =
    replace_confs-render second_read second (first ∷ second ∷ [])
      (first-IsWellFormed.fits, (second-IsWellFormed.fits, tt)) (omega arith) (omega arith) refl

open_file-locked_within_example :
    open_file working ≡ (working.opens && (working.locks 0 || locked_within 30 0 working.locks))
open_file-locked_within_example = open_file-locked_within working

check_if_read-read_texts_example :
    check_if_read working 2 1 file ≡ some (if includes 2 (1 ∷ 2 ∷ 3 ∷ 5 ∷ []) then pos 1 else pos 0)
check_if_read-read_texts_example =
    check_if_read-read_texts working 2 1 first (second ∷ []) working-Works both-AllWellFormed

mark_as_read-Marks_example :
    (new : List ConfsEntry) × (mark_as_read working 4 1 file
      ≡ some (
        if is_member 1 (first ∷ second ∷ []) && not (is_read 1 4 (first ∷ second ∷ []))
            then pos 1
            else pos 0,
        render new,
      ))
    × Marks 4 1 (first ∷ second ∷ []) new
mark_as_read-Marks_example =
    mark_as_read-Marks working 4 1 first (second ∷ []) working-Works both-AllWellFormed
      (omega arith) (omega arith)

mark_as_unread-Unmarks_example :
    (new : List ConfsEntry) × (mark_as_unread working 2 1 file
      ≡ some (if is_read 1 2 (first ∷ second ∷ []) then pos 1 else pos 0, render new))
    × Unmarks 2 1 (first ∷ second ∷ []) new
mark_as_unread-Unmarks_example =
    mark_as_unread-Unmarks working 2 1 first (second ∷ []) working-Works both-AllWellFormed

num_unread-texts_unread_example :
    num_unread working 1 9 file ≡ some (pos (texts_unread 9 1 (first ∷ second ∷ [])))
num_unread-texts_unread_example =
    num_unread-texts_unread working 1 9 first first (second ∷ []) working-Works both-AllWellFormed
      refl (omega arith, (omega arith, tt))

member_of-is_member_example :
    member_of working 4 file ≡ some (if is_member 4 (first ∷ second ∷ []) then pos 1 else pos 0)
member_of-is_member_example =
    member_of-is_member working 4 (first ∷ second ∷ []) working-Works both-AllWellFormed

mark_as_unread-mark_as_read_example :
    (new : Bytes) × (mark_as_read working 4 1 file ≡ some (pos 1, new))
    × (mark_as_unread working 4 1 new ≡ some (pos 1, file))
mark_as_unread-mark_as_read_example =
    mark_as_unread-mark_as_read working 4 1 first first (second ∷ []) working-Works
      both-AllWellFormed (omega arith) (omega arith) refl four_unread
