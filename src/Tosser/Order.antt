-- ===== src/Tosser/Order.antt =====
-- build_import_plan (ftntoss.c): the later passes end, since each but the last plans a message.
use mathlib.Core.List.{Memᴰ}
use sklaffkom.Base.{
  is_empty, ℕ, ◌+◌, ◌≤◌, ◌<◌, Bool, true, false, not, ◌||◌, ◌≡◌, ◌⊎◌, refl, ap, ◌∙◌, sym, List, [],
  ◌∷◌, arith, Bytes, length, ltb, ◌==◌, Bool-cases, inl, inr,
}
use sklaffkom.Libc.{same_string}
use sklaffkom.Tosser.Plans.{new_plan, add_planref-new}
use sklaffkom.Tosser.{
  MsgItem, SkRef, PlanRef, Plan, find_skref, find_planref_by_filename, find_planref_by_msgid,
  is_done, is_some, plan_reply,
}

-- Is the message planned?
abbrev pub planned_in : List PlanRef → MsgItem → Bool
planned_in plans m = is_some (find_planref_by_filename plans m.filename)

same_string_refl : (s : Bytes) → same_string s s ≡ true
same_string_refl [] = refl
same_string_refl (c ∷ s) = ground (arith, same_string_refl s)

pub planned_in-new :
    (p : PlanRef) (m : MsgItem) (plans : List PlanRef)
    → p.filename ≡ m.filename
    → is_empty m.filename ≡ false
    → planned_in (p ∷ plans) m ≡ true
unfolding find_planref_by_filename
planned_in-new p m plans e full = rw (full, e, same_string_refl m.filename) refl

pub planned_in-grows :
    (p : PlanRef) (m : MsgItem) (plans : List PlanRef)
    → planned_in plans m ≡ true
    → planned_in (p ∷ plans) m ≡ true
unfolding find_planref_by_filename
planned_in-grows p m plans h = elim (Bool-cases (is_empty m.filename)) [
  | inl e ↦ let h' : false ≡ true = rw e at h in cc
  | inr full ↦ elim (Bool-cases (same_string p.filename m.filename)) [
    | inl same ↦ rw (full, same) refl
    | inr other ↦ rw (full, other) (rw full at h)
  ]
]

abbrev pub bit : Bool → ℕ
bit true = 1
bit false = 0

-- the number of the messages that are not planned
abbrev pub count_left : List MsgItem → List PlanRef → ℕ
count_left [] plans = 0
count_left (m ∷ ms) plans = bit (not (planned_in plans m)) + count_left ms plans

pub count_left-length : (ms : List MsgItem) (plans : List PlanRef) → count_left ms plans ≤ length ms
count_left-length [] plans = omega arith
count_left-length (m ∷ ms) plans = ground (arith, count_left-length ms plans)

count_left-grows :
    (p : PlanRef) (ms : List MsgItem) (plans : List PlanRef)
    → count_left ms (p ∷ plans) ≤ count_left ms plans
count_left-grows p [] plans = omega arith
count_left-grows p (m ∷ ms) plans = elim (Bool-cases (planned_in plans m)) [
  | inl there ↦
      rw (there, planned_in-grows p m plans there) (omega (arith, count_left-grows p ms plans))
  | inr new ↦ elim (Bool-cases (planned_in (p ∷ plans) m)) [
    | inl e ↦ rw (new, e) (omega (arith, count_left-grows p ms plans))
    | inr e ↦ rw (new, e) (omega (arith, count_left-grows p ms plans))
  ]
]

pub count_left-less :
    (p : PlanRef) (m : MsgItem) (ms : List MsgItem) (plans : List PlanRef)
    → Memᴰ m ms
    → p.filename ≡ m.filename
    → is_empty m.filename ≡ false
    → planned_in plans m ≡ false
    → count_left ms (p ∷ plans) < count_left ms plans
count_left-less p m [] plans there same full new = elim there [ ]
count_left-less p m (x ∷ ms) plans (Memᴰ.head e) same full new =
    let x_new : planned_in plans x ≡ false = ap (planned_in plans) (sym e) ∙ new in
    let x_there : planned_in (p ∷ plans) x ≡ true =
      ap (planned_in (p ∷ plans)) (sym e) ∙ planned_in-new p m plans same full in
    rw (x_new, x_there) (omega (arith, count_left-grows p ms plans))
count_left-less p m (x ∷ ms) plans (Memᴰ.tail there) same full new =
    let less = count_left-less p m ms plans there same full new in
    elim (Bool-cases (planned_in plans x)) [
      | inl e ↦ rw (e, planned_in-grows p x plans e) (omega arith)
      | inr e ↦ elim (Bool-cases (planned_in (p ∷ plans) x)) [
        | inl e' ↦ rw (e, e') (omega arith)
        | inr e' ↦ rw (e, e') (omega arith)
      ]
    ]

-- A later pass has nothing to plan for the message.
abbrev pub is_quiet : List SkRef → List PlanRef → MsgItem → Bool
is_quiet skrefs plans m =
    planned_in plans m
    || ltb 0 (find_skref skrefs m.msgid)
    || is_empty m.reply
    || find_planref_by_msgid plans m.reply == 0

-- a plan with one more message, as a later pass adds it
abbrev pub replied : MsgItem → Plan → Plan
replied m st = record {
  plans = new_plan m (find_planref_by_msgid st.plans m.reply) false st ∷ st.plans;
  next_textnum = st.next_textnum + 1;
  planned = st.planned + 1;
  top_level = st.top_level;
  reply_existing = st.reply_existing;
  reply_planned = st.reply_planned + 1;
  orphan = st.orphan;
  changed = true;
}

module _ (skrefs : List SkRef) where
  pub plan_reply-cases :
      (m : MsgItem) (st : Plan)
      → is_empty m.filename ≡ false
      → 1 ≤ st.next_textnum
      → ((is_quiet skrefs st.plans m ≡ true) × (plan_reply skrefs m st ≡ st))
        ⊎ ((planned_in st.plans m ≡ false) × (plan_reply skrefs m st ≡ replied m st))
  unfolding plan_reply is_done
  plan_reply-cases m st full low =
      let added = add_planref-new m (find_planref_by_msgid st.plans m.reply) false st full low in
      elim (Bool-cases (planned_in st.plans m)) [
        | inl there ↦ inl (rw there refl, rw there refl)
        | inr new ↦ elim (Bool-cases (ltb 0 (find_skref skrefs m.msgid))) [
          | inl known ↦ inl (rw (new, known) refl, rw (new, known) refl)
          | inr unknown ↦ elim (Bool-cases (is_empty m.reply)) [
            | inl bare ↦ inl (rw (new, unknown, bare) refl, rw (new, unknown, bare) refl)
            | inr reply ↦ elim (Bool-cases (ltb 0 (find_planref_by_msgid st.plans m.reply))) [
              | inl parent ↦ inr (new, rw (new, unknown, reply, parent, added) refl)
              | inr none_there ↦ inl (ground arith, rw (new, unknown, reply, none_there) refl)
            ]
          ]
        ]
      ]
