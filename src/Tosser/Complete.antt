-- ===== src/Tosser/Complete.antt =====
-- build_import_plan (ftntoss.c): which messages are planned.
use mathlib.Core.List.{Memᴰ}
use sklaffkom.Base.{
  is_empty, ℕ, ◌+◌, ◌≤◌, Bool, true, false, not, ◌&&◌, ◌||◌, ◌≡◌, refl, List, [], ◌∷◌, arith,
  Bool-cases, inl, inr, All, ltb, ◌==◌, if◌then◌else◌,
}
use sklaffkom.Tosser.Order.{
  planned_in, planned_in-new, planned_in-grows, is_quiet, plan_reply-cases,
}
use sklaffkom.Tosser.Passes.{AllNamed}
use sklaffkom.Tosser.Plans.{new_plan, add_planref-new}
use sklaffkom.Tosser.{
  MsgItem, SkRef, PlanRef, Plan, find_skref, find_planref_by_msgid, is_done, plan_first, plan_reply,
  plan_orphan, pass, subject_looks_like_reply, planned_as,
}

-- The message is in the conference already.
abbrev pub is_imported : List SkRef → MsgItem → Bool
is_imported skrefs m = ltb 0 (find_skref skrefs m.msgid)

-- A message that is left out unless `include_unsafe` is set: one that looks like an answer and names
-- none, or one that answers a message that is neither in the conference nor planned.
abbrev pub is_unsafe : List SkRef → List PlanRef → MsgItem → Bool
is_unsafe skrefs plans m =
    if is_empty m.reply
    then subject_looks_like_reply m.subject
    else find_skref skrefs m.reply == 0 && find_planref_by_msgid plans m.reply == 0

-- why the first pass does not plan a message
abbrev pub is_passed_over : List SkRef → Bool → MsgItem → Bool
is_passed_over skrefs unsafe m =
    is_imported skrefs m
    || (if is_empty m.reply
        then not unsafe && subject_looks_like_reply m.subject
        else find_skref skrefs m.reply == 0)

-- What is planned stays so.
pub record Grows (st st' : Plan) : Type 0 where
  pub keeps : (x : MsgItem) → planned_in st.plans x ≡ true → planned_in st'.plans x ≡ true
  pub low : st.next_textnum ≤ st'.next_textnum

Grows-refl : (st : Plan) → Grows st st
Grows-refl st = record { keeps = λ x h. h; low = omega arith }

Grows-trans : (a b c : Plan) → Grows a b → Grows b c → Grows a c
Grows-trans a b c p q =
    let p_low = p.low in
    let q_low = q.low in record { keeps = λ x h. q.keeps x (p.keeps x h); low = omega arith }

-- A step over a message plans it, or there is a reason why not.
pub record Settles (why : MsgItem → Bool) (m : MsgItem) (st st' : Plan) : Type 0 where
  pub grows : Grows st st'
  pub settled : (planned_in st'.plans m || why m) ≡ true

Settles-same :
    {why : MsgItem → Bool} (m : MsgItem) (st : Plan)
    → (planned_in st.plans m || why m) ≡ true
    → Settles why m st st
Settles-same m st h = record { grows = Grows-refl st; settled = h }

Settles-planned :
    {why : MsgItem → Bool} (m : MsgItem) (parent : ℕ) (o : Bool) (st : Plan) (a b c d : ℕ)
    (e : Bool)
    → is_empty m.filename ≡ false
    → 1 ≤ st.next_textnum
    → Settles why m st (record (planned_as m parent o st) {
      top_level = a;
      reply_existing = b;
      reply_planned = c;
      orphan = d;
      changed = e;
    })
Settles-planned m parent o st a b c d e full low =
    rw (add_planref-new m parent o st full low) (record {
      grows = record {
        keeps = λ x. planned_in-grows (new_plan m parent o st) x st.plans;
        low = omega arith;
      };
      settled = rw (planned_in-new (new_plan m parent o st) m st.plans refl full) refl;
    })

-- a loop over the messages
pub pass-Settles :
    (why : MsgItem → Bool) (step : MsgItem → Plan → Plan) (ms : List MsgItem) (st : Plan)
    → ((m : MsgItem) (st' : Plan)
        → is_empty m.filename ≡ false
        → 1 ≤ st'.next_textnum
        → Settles why m st' (step m st'))
    → AllNamed ms
    → 1 ≤ st.next_textnum
    → Grows st (pass step ms st)
      × All (λ m. (planned_in (pass step ms st).plans m || why m) ≡ true) ms
pass-Settles why step [] st settles full low = (Grows-refl st, tt)
pass-Settles why step (m ∷ ms) st settles full low =
    let s = settles m st full.0 low in
    let step_low = s.grows.low in
    let (grows, all) = pass-Settles why step ms (step m st) settles full.1 (omega arith) in
    (
      Grows-trans st (step m st) (pass step ms (step m st)) s.grows grows,
      elim (Bool-cases (planned_in (step m st).plans m)) [
        | inl there ↦ (rw (grows.keeps m there) refl, all)
        | inr left ↦
            let reason : why m ≡ true = rw left at s.settled in (rw reason (ground arith), all)
      ],
    )

module _ (skrefs : List SkRef) (unsafe : Bool) (m : MsgItem) (st : Plan)
    (full : is_empty m.filename ≡ false) (low : 1 ≤ st.next_textnum) where
  pub plan_first-Settles :
      Settles (is_passed_over skrefs unsafe) m st (plan_first skrefs unsafe m st)
  unfolding plan_first is_done
  plan_first-Settles =
      let adds = λ (u : Bool) (parent : ℕ) (o : Bool) (a b : ℕ).
        Settles-planned {why = is_passed_over skrefs u} m parent o st a b st.reply_planned st.orphan
          st.changed full low in
      elim (Bool-cases (is_done skrefs m st)) [
        | inl there ↦ rw there (Settles-same m st (ground arith))
        | inr new ↦ elim (Bool-cases (is_empty m.reply)) [
          | inl bare ↦ elim (Bool-cases (subject_looks_like_reply m.subject)) [
            | inl re ↦ elim (Bool-cases unsafe) [
              | inl take ↦
                  rw (new, bare, re, take) (adds true 0 true (st.top_level + 1) st.reply_existing)
              | inr leave ↦ rw (new, bare, re, leave) (Settles-same m st (ground arith))
            ]
            | inr top ↦
                rw (new, bare, top) (adds unsafe 0 false (st.top_level + 1) st.reply_existing)
          ]
          | inr reply ↦ elim (Bool-cases (ltb 0 (find_skref skrefs m.reply))) [
            | inl there ↦
                rw (new, reply, there)
                  (adds unsafe (find_skref skrefs m.reply) false st.top_level
                    (st.reply_existing + 1))
            | inr none_there ↦ rw (new, reply, none_there) (Settles-same m st (ground arith))
          ]
        ]
      ]

  pub plan_reply-Settles : Settles (λ x. true) m st (plan_reply skrefs m st)
  plan_reply-Settles = elim (plan_reply-cases skrefs m st full low) [
    | inl (quiet, e) ↦ rw e (Settles-same m st (ground arith))
    | inr (new, e) ↦ rw e (record {
      grows = record {
        keeps = λ x.
            planned_in-grows (new_plan m (find_planref_by_msgid st.plans m.reply) false st) x
              st.plans;
        low = omega arith;
      };
      settled = ground arith;
    })
  ]

  pub plan_orphan-Settles : Settles (is_imported skrefs) m st (plan_orphan skrefs m st)
  unfolding plan_orphan is_done
  plan_orphan-Settles = elim (Bool-cases (is_done skrefs m st)) [
    | inl there ↦ rw there (Settles-same m st there)
    | inr new ↦ rw new (
        Settles-planned {why = is_imported skrefs} m 0 true st st.top_level st.reply_existing
          st.reply_planned (st.orphan + 1) st.changed full low)
  ]

pub All-Mem :
    (ms items : List MsgItem)
    → ((m : MsgItem) → Memᴰ m ms → Memᴰ m items)
    → All (λ m. Memᴰ m items) ms
All-Mem [] items h = tt
All-Mem (m ∷ ms) items h = (h m (Memᴰ.head refl), All-Mem ms items (λ x k. h x (Memᴰ.tail k)))

-- For each message: it is planned, or the reasons why not.
pub final :
    (skrefs : List SkRef) (plans : List PlanRef) (ms : List MsgItem)
    → All (λ m. (planned_in plans m || is_passed_over skrefs false m) ≡ true) ms
    → All (λ m. is_quiet skrefs plans m ≡ true) ms
    → All (λ m. (planned_in plans m || is_imported skrefs m || is_unsafe skrefs plans m) ≡ true) ms
final skrefs plans [] over quiet = tt
final skrefs plans (m ∷ ms) over quiet =
    (one m over.0 quiet.0, final skrefs plans ms over.1 quiet.1)
  where
    one :
        (m : MsgItem)
        → (planned_in plans m || is_passed_over skrefs false m) ≡ true
        → is_quiet skrefs plans m ≡ true
        → (planned_in plans m || is_imported skrefs m || is_unsafe skrefs plans m) ≡ true
    one m over quiet = ground arith
