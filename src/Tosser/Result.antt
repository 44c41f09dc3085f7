-- ===== src/Tosser/Result.antt =====
-- build_import_plan (ftntoss.c) as a whole.
use mathlib.Core.List.{Memᴰ}
use sklaffkom.Base.{
  ℕ, suc, ◌≤◌, Bool, true, false, not, ◌&&◌, ◌||◌, ◌≡◌, refl, some, List, [], ◌∷◌, arith,
  Bool-cases, inl, inr, All, length,
}
use sklaffkom.Tosser.Complete.{
  is_imported, is_unsafe, is_passed_over, Grows, pass-Settles, plan_first-Settles,
  plan_reply-Settles, plan_orphan-Settles, All-Mem, final,
}
use sklaffkom.Tosser.Order.{planned_in, count_left-length, is_quiet}
use sklaffkom.Tosser.Passes.{AllNamed, round, reply_loop-ends}
use sklaffkom.Tosser.Plans.{
  IsSound, plan_first-IsSound, plan_reply-IsSound, plan_orphan-IsSound, pass-IsSound,
}
use sklaffkom.Tosser.{
  MsgItem, SkRef, PlanRef, Plan, plan_first, plan_reply, plan_orphan, pass, no_plan, orphans,
  reply_loop, build_import_plan,
}

Settled : (MsgItem → Bool) → List PlanRef → List MsgItem → Type 0
Settled why plans = All (λ m. (planned_in plans m || why m) ≡ true)

Settled-Grows :
    (why : MsgItem → Bool) (a b : Plan) (ms : List MsgItem)
    → Grows a b
    → Settled why a.plans ms
    → Settled why b.plans ms
unfolding Settled
Settled-Grows why a b [] g h = tt
Settled-Grows why a b (m ∷ ms) g h = (
  elim (Bool-cases (planned_in a.plans m)) [
    | inl there ↦ rw (g.keeps m there) refl
    | inr left ↦ let reason : why m ≡ true = rw left at h.0 in rw reason (ground arith)
  ],
  Settled-Grows why a b ms g h.1,
)

module _ (items : List MsgItem) (skrefs : List SkRef) (first : ℕ) (unsafe : Bool) (low : 1 ≤ first)
    (full : AllNamed items) where
  within : All (λ m. Memᴰ m items) items
  within = All-Mem items items (λ m k. k)

  -- what the passes keep
  record Kept (st : Plan) : Type 0 where
    pub sound : IsSound (λ m. Memᴰ m items) skrefs first st
    pub settled : Settled (is_passed_over skrefs unsafe) st.plans items

  Kept-low : (st : Plan) → Kept st → 1 ≤ st.next_textnum
  Kept-low st k = let next = k.sound.next in omega arith

  Kept-first : Kept (pass (plan_first skrefs unsafe) items (no_plan first))
  unfolding Settled
  Kept-first = record {
    sound =
        pass-IsSound _ skrefs first low (plan_first skrefs unsafe) items (no_plan first)
          (λ m st from named s. plan_first-IsSound _ skrefs first low unsafe m st from named s)
          within full (record { all = tt; next = omega arith; count = refl; sum = refl });
    settled =
        (pass-Settles (is_passed_over skrefs unsafe) (plan_first skrefs unsafe) items
          (no_plan first) (λ m st named next. plan_first-Settles skrefs unsafe m st named next) full
          low).1;
  }

  Kept-round : (st : Plan) → Kept st → Kept (round skrefs items st)
  unfolding Settled
  Kept-round st k =
      let s = k.sound in
      record {
        sound =
            pass-IsSound _ skrefs first low (plan_reply skrefs) items
              (record st { changed = false })
              (λ m st' from named s'. plan_reply-IsSound _ skrefs first low m st' from named s')
              within full (record { all = s.all; next = s.next; count = s.count; sum = s.sum });
        settled =
            Settled-Grows (is_passed_over skrefs unsafe) (record st { changed = false })
              (round skrefs items st) items
              (pass-Settles (λ m. true) (plan_reply skrefs) items (record st { changed = false })
                (λ m st' named next. plan_reply-Settles skrefs unsafe m st' named next) full
                (Kept-low st k)).0
              k.settled;
      }

  -- the plan behind the later passes
  record Replied (st : Plan) : Type 0 where
    pub kept : Kept st
    pub quiet : All (λ m. is_quiet skrefs st.plans m ≡ true) items
    pub run :
        reply_loop
          (suc (length items))
          skrefs
          items
          (pass (plan_first skrefs unsafe) items (no_plan first))
        ≡ some st

  replies : (st : Plan) × Replied st
  replies =
      let start = pass (plan_first skrefs unsafe) items (no_plan first) in
      let bound = count_left-length items start.plans in
      let (st, run, kept, quiet) =
        reply_loop-ends skrefs items Kept Kept-low Kept-round full within (suc (length items)) start
          Kept-first (omega arith) in
      (st, record { kept = kept; quiet = quiet; run = run })

-- Each message is planned, or it is in the conference already, or it is unsafe and those are left out.
abbrev pub IsAccounted : List SkRef → Bool → List PlanRef → MsgItem → Type 0
IsAccounted skrefs unsafe plans m =
    (planned_in plans m || is_imported skrefs m || (not unsafe && is_unsafe skrefs plans m)) ≡ true

imported-IsAccounted :
    (skrefs : List SkRef) (plans : List PlanRef) (ms : List MsgItem)
    → All (λ m. (planned_in plans m || is_imported skrefs m) ≡ true) ms
    → All (IsAccounted skrefs true plans) ms
imported-IsAccounted skrefs plans [] h = tt
imported-IsAccounted skrefs plans (m ∷ ms) h = (one m h.0, imported-IsAccounted skrefs plans ms h.1)
  where
    one :
        (m : MsgItem)
        → (planned_in plans m || is_imported skrefs m) ≡ true
        → IsAccounted skrefs true plans m
    one m h = ground arith

-- the loop for include_unsafe
module _ (items : List MsgItem) (skrefs : List SkRef) (first : ℕ) (low : 1 ≤ first)
    (full : AllNamed items) where
  orphans-IsSound :
      (unsafe : Bool) (st : Plan)
      → IsSound (λ m. Memᴰ m items) skrefs first st
      → IsSound (λ m. Memᴰ m items) skrefs first (orphans skrefs items unsafe st)
  orphans-IsSound true st sound =
      pass-IsSound _ skrefs first low (plan_orphan skrefs) items st
        (λ m st from named s. plan_orphan-IsSound _ skrefs first low m st from named s)
        (All-Mem items items (λ m k. k)) full sound
  orphans-IsSound false st sound = sound

  orphans-IsAccounted :
      (unsafe : Bool) (st : Plan)
      → 1 ≤ st.next_textnum
      → Settled (is_passed_over skrefs unsafe) st.plans items
      → All (λ m. is_quiet skrefs st.plans m ≡ true) items
      → All (IsAccounted skrefs unsafe (orphans skrefs items unsafe st).plans) items
  unfolding Settled
  orphans-IsAccounted true st next settled quiet =
      imported-IsAccounted skrefs _ items
        (pass-Settles (is_imported skrefs) (plan_orphan skrefs) items st
          (λ m st named next. plan_orphan-Settles skrefs true m st named next) full next).1
  orphans-IsAccounted false st next settled quiet = final skrefs st.plans items settled quiet

-- build_import_plan for a first text number of at least 1 and messages whose file names are not empty:
-- its loop ends. The planned messages are messages of the list, each with its own file and identity;
-- their texts are numbered in a row from the first number on, in the order of planning; no file is
-- planned twice, and none whose identity is in the conference already; each answers nothing, or the
-- text of the conference that has the identity it answers, or the text planned before it for that
-- identity. The next number and the counters agree with them.
pub build_import_plan-IsSound :
    (items : List MsgItem) (skrefs : List SkRef) (first : ℕ) (unsafe : Bool)
    → 1 ≤ first
    → AllNamed items
    → (st : Plan) × (build_import_plan items skrefs first unsafe ≡ some st)
      × IsSound (λ m. Memᴰ m items) skrefs first st
unfolding build_import_plan
build_import_plan-IsSound items skrefs first unsafe low full =
    let (st, r) = replies items skrefs first unsafe low full in
    (
      orphans skrefs items unsafe st,
      rw r.run refl,
      orphans-IsSound items skrefs first low full unsafe st r.kept.sound,
    )

-- build_import_plan for a first text number of at least 1 and messages whose file names are not empty
-- leaves no message out without a reason: with the flag for unsafe messages every message is planned or
-- has its identity in the conference already. Without it, a message may also look like an answer in its
-- subject and name no message that it answers, or answer one that is neither in the conference nor
-- among the planned ones.
pub build_import_plan-IsAccounted :
    (items : List MsgItem) (skrefs : List SkRef) (first : ℕ) (unsafe : Bool)
    → 1 ≤ first
    → AllNamed items
    → (st : Plan) × (build_import_plan items skrefs first unsafe ≡ some st)
      × All (IsAccounted skrefs unsafe st.plans) items
unfolding build_import_plan
build_import_plan-IsAccounted items skrefs first unsafe low full =
    let (st, r) = replies items skrefs first unsafe low full in
    let next = r.kept.sound.next in
    (
      orphans skrefs items unsafe st,
      rw r.run refl,
      orphans-IsAccounted items skrefs first low full unsafe st (omega arith) r.kept.settled
          r.quiet,
    )
