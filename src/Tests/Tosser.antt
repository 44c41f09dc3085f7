-- ===== src/Tests/Tosser.antt =====
-- The import of FidoNet messages, of ftntoss.c.
use mathlib.Core.List.{Memᴰ, Perm}
use sklaffkom.Base.{◌≡◌, refl, false, some, List, [], ◌∷◌, arith, All, codes, map, ◌>>=◌}
use sklaffkom.Libc.{strtol_errno}
use sklaffkom.Tosser.{
  MsgItem, SkRef, Plan, build_import_plan, reply_loop, plan_first, plan_reply, is_done, add_planref,
  find_skref, find_planref_by_filename, find_planref_by_msgid, subject_looks_like_reply,
}
use sklaffkom.Tosser.Passes.{AllNamed}
use sklaffkom.Tosser.Plans.{IsSound}
use sklaffkom.Tosser.Result.{IsAccounted, build_import_plan-IsSound, build_import_plan-IsAccounted}
use sklaffkom.Tosser.Spool.{
  sort_msgitems_by_number, msgitem_filename_number, AllNumbered, IsSorted,
  sort_msgitems_by_number-IsSorted,
}

-- a message that answers none, an answer to the next one, an answer to a text of the conference, and
-- an answer to a message that is nowhere
abbrev hello : MsgItem
hello = record {
  filename = codes "1.msg";
  path = codes "spool/1.msg";
  msgid = codes "a";
  reply = [];
  subject = codes "Hello";
}

abbrev answer : MsgItem
answer = record {
  filename = codes "2.msg";
  path = codes "spool/2.msg";
  msgid = codes "b";
  reply = codes "c";
  subject = codes "Re: Old";
}

abbrev later : MsgItem
later = record {
  filename = codes "3.msg";
  path = codes "spool/3.msg";
  msgid = codes "c";
  reply = codes "x";
  subject = codes "Re: Old";
}

abbrev lost : MsgItem
lost = record {
  filename = codes "10.MSG";
  path = codes "spool/10.MSG";
  msgid = codes "d";
  reply = codes "z";
  subject = codes "Re: Gone";
}

abbrev spool : List MsgItem
spool = lost ∷ answer ∷ hello ∷ later ∷ []

abbrev texts : List SkRef
texts = record { msgid = codes "x"; textnum = 5 } ∷ []

spool-AllNamed : AllNamed spool
spool-AllNamed = (refl, (refl, (refl, (refl, tt))))

build_import_plan-IsSound_example :
    (st : Plan) × (build_import_plan spool texts 7 false ≡ some st)
    × IsSound (λ m. Memᴰ m spool) texts 7 st
build_import_plan-IsSound_example =
    build_import_plan-IsSound spool texts 7 false (omega arith) spool-AllNamed

build_import_plan-IsAccounted_example :
    (st : Plan) × (build_import_plan spool texts 7 false ≡ some st)
    × All (IsAccounted texts false st.plans) spool
build_import_plan-IsAccounted_example =
    build_import_plan-IsAccounted spool texts 7 false (omega arith) spool-AllNamed

spool-AllNumbered : AllNumbered spool
unfolding msgitem_filename_number strtol_errno
spool-AllNumbered = (refl, (refl, (refl, (refl, tt))))

sort_msgitems_by_number-IsSorted_example :
    IsSorted (sort_msgitems_by_number spool) × Perm (sort_msgitems_by_number spool) spool
sort_msgitems_by_number-IsSorted_example = sort_msgitems_by_number-IsSorted spool spool-AllNumbered

-- The order by hand: the answer to a planned message comes last, and the lost one is left out.
plan_numbers :
    (do plan ← build_import_plan spool texts 7 false; some (map (λ p. p.filename) plan.plans))
    ≡ some (codes "2.msg" ∷ codes "3.msg" ∷ codes "1.msg" ∷ [])
unfolding build_import_plan reply_loop plan_first plan_reply is_done add_planref find_skref
    find_planref_by_filename find_planref_by_msgid subject_looks_like_reply
plan_numbers = refl
