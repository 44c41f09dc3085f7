-- ===== src/Tosser/Plans.antt =====
-- What a plan of build_import_plan (ftntoss.c) keeps while messages are added to it.

use sklaffkom.Base.{
  is_empty, ℕ, ◌+◌, ◌≤◌, Bool, true, false, ◌≡◌, ◌⊎◌, refl, none, List, [], ◌∷◌, arith, length, ltb,
  Bool-cases, Option-cases, inl, inr, All, ◌==◌,
}
use sklaffkom.Tosser.{
  MsgItem, SkRef, PlanRef, Plan, find_skref, find_planref_by_filename, find_planref_by_msgid,
  add_planref, planned_as, is_done, plan_first, plan_reply, plan_orphan, pass,
  subject_looks_like_reply,
}

module _ (P : MsgItem → Type 0) (skrefs : List SkRef) (first : ℕ) where
  -- Where the text of a message stands: it answers none, or a text of the conference, or a text that
  -- was planned before it.
  abbrev pub Answers : MsgItem → PlanRef → List PlanRef → Type 0
  Answers m p before =
      (p.parent_textnum ≡ 0)
      ⊎ ((1 ≤ p.parent_textnum) × (p.parent_textnum ≡ find_skref skrefs m.reply))
      ⊎ ((1 ≤ p.parent_textnum) × (p.parent_textnum ≡ find_planref_by_msgid before m.reply))

  -- One planned message, with those planned before it: it is the next text, no other message has its
  -- file, and it is not in the conference yet.
  pub record IsPlanned (p : PlanRef) (before : List PlanRef) : Type 0 where
    pub item : MsgItem
    pub from : P item
    pub file : p.filename ≡ item.filename
    pub identity : p.msgid ≡ item.msgid
    pub number : p.planned_textnum ≡ first + length before
    pub fresh : find_planref_by_filename before item.filename ≡ none
    pub missing : find_skref skrefs item.msgid ≡ 0
    pub answers : Answers item p before

  abbrev pub AllPlanned : List PlanRef → Type 0
  AllPlanned [] = Unit
  AllPlanned (p ∷ before) = IsPlanned p before × AllPlanned before

  -- the counters
  pub record IsSound (st : Plan) : Type 0 where
    pub all : AllPlanned st.plans
    pub next : st.next_textnum ≡ first + length st.plans
    pub count : st.planned ≡ length st.plans
    pub sum : st.top_level + st.reply_existing + st.reply_planned + st.orphan ≡ st.planned

-- the new entry of planned_as
abbrev pub new_plan : MsgItem → ℕ → Bool → Plan → PlanRef
new_plan m parent orphan st = record {
  filename = m.filename;
  msgid = m.msgid;
  planned_textnum = st.next_textnum;
  parent_textnum = parent;
  orphan = orphan;
}

pub add_planref-new :
    (m : MsgItem) (parent : ℕ) (orphan : Bool) (st : Plan)
    → is_empty m.filename ≡ false
    → 1 ≤ st.next_textnum
    → add_planref st.plans m.filename m.msgid st.next_textnum parent orphan
      ≡ new_plan m parent orphan st ∷ st.plans
unfolding add_planref
add_planref-new m parent orphan st full low =
    let zero_not : (st.next_textnum == 0) ≡ false = ground arith in rw (full, zero_not) refl

pub not_done :
    (skrefs : List SkRef) (m : MsgItem) (st : Plan)
    → is_done skrefs m st ≡ false
    → (find_planref_by_filename st.plans m.filename ≡ none) × (find_skref skrefs m.msgid ≡ 0)
unfolding is_done
not_done skrefs m st h = elim (Option-cases (find_planref_by_filename st.plans m.filename)) [
  | inl none_there ↦
      let h' : ltb 0 (find_skref skrefs m.msgid) ≡ false = rw none_there at h in
      (none_there, ground arith)
  | inr (p, there) ↦ let h' : true ≡ false = rw there at h in cc
]

module _ (P : MsgItem → Type 0) (skrefs : List SkRef) (first : ℕ) (low : 1 ≤ first) where
  IsSound-planned :
      (m : MsgItem) (parent : ℕ) (orphan : Bool) (st : Plan) (a b c d : ℕ) (e : Bool)
      → P m
      → is_empty m.filename ≡ false
      → IsSound P skrefs first st
      → is_done skrefs m st ≡ false
      → Answers P skrefs first m (new_plan m parent orphan st) st.plans
      → a + b + c + d ≡ st.planned + 1
      → IsSound P skrefs first (record (planned_as m parent orphan st) {
        top_level = a;
        reply_existing = b;
        reply_planned = c;
        orphan = d;
        changed = e;
      })
  IsSound-planned m parent orphan st a b c d e from full s fresh_item answers total =
      let (fresh, missing) = not_done skrefs m st fresh_item in
      let next = s.next in
      let count = s.count in
      rw (add_planref-new m parent orphan st full (omega arith)) (record {
        all = (
          record {
            item = m;
            from = from;
            file = refl;
            identity = refl;
            number = s.next;
            fresh = fresh;
            missing = missing;
            answers = answers;
          },
          s.all,
        );
        next = omega arith;
        count = omega arith;
        sum = total;
      })

  pub plan_first-IsSound :
      (unsafe : Bool) (m : MsgItem) (st : Plan)
      → P m
      → is_empty m.filename ≡ false
      → IsSound P skrefs first st
      → IsSound P skrefs first (plan_first skrefs unsafe m st)
  unfolding plan_first
  plan_first-IsSound unsafe m st from full s =
      let sum = s.sum in
      let add = λ (parent : ℕ) (orphan : Bool) (a b : ℕ).
        IsSound-planned m parent orphan st a b st.reply_planned st.orphan st.changed from full s in
      elim (Bool-cases (is_done skrefs m st)) [
        | inl there ↦ rw there s
        | inr new ↦ elim (Bool-cases (is_empty m.reply)) [
          | inl bare ↦ elim (Bool-cases (subject_looks_like_reply m.subject)) [
            | inl re ↦ elim (Bool-cases unsafe) [
              | inl take ↦
                  rw (new, bare, re, take)
                    (add 0 true (st.top_level + 1) st.reply_existing new (inl refl) (omega arith))
              | inr leave ↦ rw (new, bare, re, leave) s
            ]
            | inr top ↦
                rw (new, bare, top)
                  (add 0 false (st.top_level + 1) st.reply_existing new (inl refl) (omega arith))
          ]
          | inr reply ↦ elim (Bool-cases (ltb 0 (find_skref skrefs m.reply))) [
            | inl there ↦
                rw (new, reply, there)
                  (add (find_skref skrefs m.reply) false st.top_level (st.reply_existing + 1) new
                    (inr (inl (ground arith, refl))) (omega arith))
            | inr none_there ↦ rw (new, reply, none_there) s
          ]
        ]
      ]

  pub plan_reply-IsSound :
      (m : MsgItem) (st : Plan)
      → P m
      → is_empty m.filename ≡ false
      → IsSound P skrefs first st
      → IsSound P skrefs first (plan_reply skrefs m st)
  unfolding plan_reply
  plan_reply-IsSound m st from full s =
      let sum = s.sum in
      elim (Bool-cases (is_done skrefs m st)) [
        | inl there ↦ rw there s
        | inr new ↦ elim (Bool-cases (is_empty m.reply)) [
          | inl bare ↦ rw (new, bare) s
          | inr reply ↦ elim (Bool-cases (ltb 0 (find_planref_by_msgid st.plans m.reply))) [
            | inl there ↦
                rw (new, reply, there)
                  (IsSound-planned m (find_planref_by_msgid st.plans m.reply) false st st.top_level
                    st.reply_existing (st.reply_planned + 1) st.orphan true from full s new
                    (inr (inr (ground arith, refl))) (omega arith))
            | inr none_there ↦ rw (new, reply, none_there) s
          ]
        ]
      ]

  pub plan_orphan-IsSound :
      (m : MsgItem) (st : Plan)
      → P m
      → is_empty m.filename ≡ false
      → IsSound P skrefs first st
      → IsSound P skrefs first (plan_orphan skrefs m st)
  unfolding plan_orphan
  plan_orphan-IsSound m st from full s =
      let sum = s.sum in
      elim (Bool-cases (is_done skrefs m st)) [
        | inl there ↦ rw there s
        | inr new ↦ rw new (
            IsSound-planned m 0 true st st.top_level st.reply_existing st.reply_planned
              (st.orphan + 1) st.changed from full s new (inl refl) (omega arith))
      ]

  -- a loop over the messages keeps it
  pub pass-IsSound :
      (step : MsgItem → Plan → Plan) (ms : List MsgItem) (st : Plan)
      → ((m : MsgItem) (st' : Plan)
          → P m
          → is_empty m.filename ≡ false
          → IsSound P skrefs first st'
          → IsSound P skrefs first (step m st'))
      → All P ms
      → All (λ m. is_empty m.filename ≡ false) ms
      → IsSound P skrefs first st
      → IsSound P skrefs first (pass step ms st)
  pass-IsSound step [] st keeps from full s = s
  pass-IsSound step (m ∷ ms) st keeps from full s =
      pass-IsSound step ms (step m st) keeps from.1 full.1 (keeps m st from.0 full.0 s)
