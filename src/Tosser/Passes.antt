-- ===== src/Tosser/Passes.antt =====
-- build_import_plan (ftntoss.c): the loop of the later passes ends.
use mathlib.Core.List.{Memᴰ}
use sklaffkom.Base.{
  is_empty, ℕ, zero, suc, ◌+◌, ◌≤◌, ◌<◌, true, false, ◌≡◌, refl, ap, ◌∙◌, sym, some, List, [], ◌∷◌,
  arith, Bool-cases, inl, inr, All,
}
use mathlib.Core.Path.{subst}
use sklaffkom.Tosser.Order.{count_left, count_left-less, is_quiet, replied, plan_reply-cases, bit}
use sklaffkom.Tosser.Plans.{new_plan}
use sklaffkom.Tosser.{MsgItem, SkRef, Plan, find_planref_by_msgid, plan_reply, pass, reply_loop}

abbrev pub AllNamed : List MsgItem → Type 0
AllNamed = All (λ m. is_empty m.filename ≡ false)

module _ (skrefs : List SkRef) (items : List MsgItem) where
  pass-next :
      (ms : List MsgItem) (st : Plan)
      → AllNamed ms
      → 1 ≤ st.next_textnum
      → 1 ≤ (pass (plan_reply skrefs) ms st).next_textnum
  pass-next [] st full low = low
  pass-next (m ∷ ms) st full low = elim (plan_reply-cases skrefs m st full.0 low) [
    | inl (quiet, e) ↦ rw (pass, e) (pass-next ms st full.1 low)
    | inr (new, e) ↦ rw (pass, e) (pass-next ms (replied m st) full.1 (omega arith))
  ]

  pass-count :
      (ms : List MsgItem) (st : Plan)
      → All (λ m. Memᴰ m items) ms
      → AllNamed ms
      → 1 ≤ st.next_textnum
      → count_left items (pass (plan_reply skrefs) ms st).plans
          + bit (pass (plan_reply skrefs) ms st).changed
        ≤ count_left items st.plans + bit st.changed
  pass-count [] st within full low = omega arith
  pass-count (m ∷ ms) st within full low = elim (plan_reply-cases skrefs m st full.0 low) [
    | inl (quiet, e) ↦ rw (pass, bit, e) (pass-count ms st within.1 full.1 low)
    | inr (new, e) ↦
        let p = new_plan m (find_planref_by_msgid st.plans m.reply) false st in
        let less = count_left-less p m items st.plans within.0 refl full.0 new in
        rw (pass, bit, e)
          (omega (arith, pass-count ms (replied m st) within.1 full.1 (omega arith)))
  ]

  -- A pass that changed nothing had nothing to plan.
  pass-quiet :
      (ms : List MsgItem) (st : Plan)
      → AllNamed ms
      → 1 ≤ st.next_textnum
      → (pass (plan_reply skrefs) ms st).changed ≡ false
      → (pass (plan_reply skrefs) ms st ≡ st) × All (λ m. is_quiet skrefs st.plans m ≡ true) ms
  pass-quiet [] st full low h = (refl, tt)
  pass-quiet (m ∷ ms) st full low h = elim (plan_reply-cases skrefs m st full.0 low) [
    | inl (quiet, e) ↦
        let (same, all) = pass-quiet ms st full.1 low (rw (pass, e) at h) in
        (rw (pass, e) same, (quiet, all))
    | inr (new, e) ↦
        let h' : (pass (plan_reply skrefs) ms (replied m st)).changed ≡ false = rw (pass, e) at h in
        let (same, all) = pass-quiet ms (replied m st) full.1 (omega arith) h' in
        let on : true ≡ false = sym (ap (λ s. s.changed) same) ∙ h' in cc
  ]

  -- a round of the loop
  abbrev pub round : Plan → Plan
  round st = pass (plan_reply skrefs) items (record st { changed = false })

  module _ (Q : Plan → Type 0) (low : (st : Plan) → Q st → 1 ≤ st.next_textnum)
      (keeps : (st : Plan) → Q st → Q (round st)) (full : AllNamed items)
      (within : All (λ m. Memᴰ m items) items) where
    pub reply_loop-ends :
        (f : ℕ) (st : Plan)
        → Q st
        → count_left items st.plans < f
        → (st' : Plan) × (reply_loop f skrefs items st ≡ some st')
          × Q st'
          × All (λ m. is_quiet skrefs st'.plans m ≡ true) items
    unfolding reply_loop
    reply_loop-ends zero st q enough = elim enough [ ]
    reply_loop-ends (suc f) st q enough =
        let count = pass-count items (record st { changed = false }) within full (low st q) in
        elim (Bool-cases (round st).changed) [
          | inl more ↦
              let on : bit (round st).changed ≡ 1 = ap bit more in
              let less : count_left items (round st).plans < f = omega arith in
              let (st', run, q', quiet) = reply_loop-ends f (round st) (keeps st q) less in
              (st', rw more run, q', quiet)
          | inr done ↦
              let (same, quiet) =
                pass-quiet items (record st { changed = false }) full (low st q) done in
              (
                round st,
                rw done refl,
                keeps st q,
                subst (λ s. All (λ m. is_quiet skrefs s.plans m ≡ true) items) (sym same) quiet,
              )
        ]
