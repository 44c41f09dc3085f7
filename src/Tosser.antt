-- ===== src/Tosser.antt =====
-- ftntoss.c: the order in which the messages of a FidoNet area are imported. `sort_msgitems_by_number`
-- (Spool.antt) sorts the files of the spool directory, and `build_import_plan` gives each message that can be
-- imported the number of a text, after the text that it answers. That calloc fails is left out. Text
-- numbers are not negative; the strings stand in buffers of the same sizes on both sides of each copy.
pub mod Spool
pub mod Plans
pub mod Order
pub mod Passes
pub mod Complete
pub mod Result
use sklaffkom.Base.{
  is_empty, ℕ, zero, suc, ◌+◌, Bool, true, false, not, ◌&&◌, ◌||◌, Option, none, some, List, [],
  ◌∷◌, Bytes, length, ltb, ◌==◌, if◌then◌else◌, ◌>>=◌, ℤ, pos, codes, ltb_ℤ, eqb_ℤ,
}
use sklaffkom.Libc.{same_string, same_letters, strtol_errno}

-- struct msgitem
pub record MsgItem : Type 0 where
  pub filename : Bytes
  pub path : Bytes
  pub msgid : Bytes
  pub reply : Bytes
  pub subject : Bytes

-- struct skref: a text of the conference that has the identity
pub record SkRef : Type 0 where
  pub msgid : Bytes
  pub textnum : ℕ

-- struct planref
pub record PlanRef : Type 0 where
  pub filename : Bytes
  pub msgid : Bytes
  pub planned_textnum : ℕ
  pub parent_textnum : ℕ
  pub orphan : Bool

abbrev pub is_re : Bytes → Bool
is_re (r ∷ e ∷ c ∷ s) = (r == b'R' || r == b'r') && (e == b'E' || e == b'e') && c == b':'
is_re _ = false

unfoldable pub subject_looks_like_reply : Bytes → Bool
subject_looks_like_reply [] = false
subject_looks_like_reply (c ∷ s) =
    let further = subject_looks_like_reply s in
    if c == b' ' || c == b'\t' then further else is_re (c ∷ s)

-- the text of the first entry with the identity, or 0
abbrev pub text_of : List SkRef → Bytes → ℕ
text_of [] msgid = 0
text_of (p ∷ list) msgid = if same_string p.msgid msgid then p.textnum else text_of list msgid

unfoldable pub find_skref : List SkRef → Bytes → ℕ
find_skref list msgid = if is_empty msgid then 0 else text_of list msgid

unfoldable pub add_planref : List PlanRef → Bytes → Bytes → ℕ → ℕ → Bool → List PlanRef
add_planref list filename msgid planned_textnum parent_textnum orphan =
    if is_empty filename || planned_textnum == 0
    then list
    else record {
      filename = filename;
      msgid = msgid;
      planned_textnum = planned_textnum;
      parent_textnum = parent_textnum;
      orphan = orphan;
    }
      ∷ list

abbrev pub plan_of_file : List PlanRef → Bytes → Option PlanRef
plan_of_file [] filename = none
plan_of_file (p ∷ list) filename =
    if same_string p.filename filename then some p else plan_of_file list filename

unfoldable pub find_planref_by_filename : List PlanRef → Bytes → Option PlanRef
find_planref_by_filename list filename =
    if is_empty filename then none else plan_of_file list filename

abbrev pub planned_text_of : List PlanRef → Bytes → ℕ
planned_text_of [] msgid = 0
planned_text_of (p ∷ list) msgid =
    if not (is_empty p.msgid) && same_string p.msgid msgid
    then p.planned_textnum
    else planned_text_of list msgid

unfoldable pub find_planref_by_msgid : List PlanRef → Bytes → ℕ
find_planref_by_msgid list msgid = if is_empty msgid then 0 else planned_text_of list msgid

-- the local variables of build_import_plan; at its end, what it hands out
pub record Plan : Type 0 where
  pub plans : List PlanRef
  pub next_textnum : ℕ
  pub planned : ℕ
  pub top_level : ℕ
  pub reply_existing : ℕ
  pub reply_planned : ℕ
  pub orphan : ℕ
  pub changed : Bool

abbrev pub is_some : Option PlanRef → Bool
is_some none = false
is_some (some p) = true

-- the two `continue`s at the head of each loop
unfoldable pub is_done : List SkRef → MsgItem → Plan → Bool
is_done skrefs m st =
    is_some (find_planref_by_filename st.plans m.filename) || ltb 0 (find_skref skrefs m.msgid)

-- `add_planref(…, next_textnum++, …); planned++;`
abbrev pub planned_as : MsgItem → ℕ → Bool → Plan → Plan
planned_as m parent_text orphan st = record st {
  plans = add_planref st.plans m.filename m.msgid st.next_textnum parent_text orphan;
  next_textnum = st.next_textnum + 1;
  planned = st.planned + 1;
}

-- the body of the first pass
unfoldable pub plan_first : List SkRef → Bool → MsgItem → Plan → Plan
plan_first skrefs include_unsafe m st =
    let parent_text = find_skref skrefs m.reply in
    if is_done skrefs m st
    then st
    else if is_empty m.reply
    then (if subject_looks_like_reply m.subject
        then (if include_unsafe
            then record (planned_as m 0 true st) { top_level = st.top_level + 1 }
            else st)
        else record (planned_as m 0 false st) { top_level = st.top_level + 1 })
    else if ltb 0 parent_text
    then record (planned_as m parent_text false st) { reply_existing = st.reply_existing + 1 }
    else st

-- the body of a later pass
unfoldable pub plan_reply : List SkRef → MsgItem → Plan → Plan
plan_reply skrefs m st =
    let parent_text = find_planref_by_msgid st.plans m.reply in
    if is_done skrefs m st
    then st
    else if is_empty m.reply
    then st
    else if ltb 0 parent_text
    then record (planned_as m parent_text false st) {
      reply_planned = st.reply_planned + 1;
      changed = true;
    }
    else st

-- the body of the loop for include_unsafe
unfoldable pub plan_orphan : List SkRef → MsgItem → Plan → Plan
plan_orphan skrefs m st =
    if is_done skrefs m st then st else record (planned_as m 0 true st) { orphan = st.orphan + 1 }

-- `for (m = items; m != NULL; m = m->next)`
abbrev pub pass : (MsgItem → Plan → Plan) → List MsgItem → Plan → Plan
pass step [] st = st
pass step (m ∷ items) st = pass step items (step m st)

abbrev pub again_if : Bool → Option Plan → Plan → Option Plan
again_if true further st = further
again_if false further st = some st

-- `do { changed = 0; … } while (changed)`
unfoldable pub reply_loop : ℕ → List SkRef → List MsgItem → Plan → Option Plan
reply_loop zero skrefs items st = none
reply_loop (suc f) skrefs items st =
    let st' = pass (plan_reply skrefs) items (record st { changed = false }) in
    again_if st'.changed (reply_loop f skrefs items st') st'

abbrev pub no_plan : ℕ → Plan
no_plan first_textnum = record {
  plans = [];
  next_textnum = first_textnum;
  planned = 0;
  top_level = 0;
  reply_existing = 0;
  reply_planned = 0;
  orphan = 0;
  changed = false;
}

abbrev pub orphans : List SkRef → List MsgItem → Bool → Plan → Plan
orphans skrefs items include_unsafe st =
    if include_unsafe then pass (plan_orphan skrefs) items st else st

-- Each pass but the last plans a message.
unfoldable pub build_import_plan : List MsgItem → List SkRef → ℕ → Bool → Option Plan
build_import_plan items skrefs first_textnum include_unsafe = do
  st ←
      reply_loop (suc (length items)) skrefs items
        (pass (plan_first skrefs include_unsafe) items (no_plan first_textnum))
  some (orphans skrefs items include_unsafe st)
