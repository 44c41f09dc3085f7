-- ===== src/Next/Liveness.antt =====
-- next_text (text.c) ends, and returns the next unread text.
use sklaffkom.Base.{
  ℕ, zero, suc, ◌+◌, ◌≤◌, ◌<◌, Bool, true, false, ◌≡◌, ◌≢◌, refl, sym, ap, ◌∙◌, Option, some, List,
  [], ◌∷◌, arith, inl, inr, ℤ, pos, Option-cases, ltb, Bool-cases,
}
use sklaffkom.Confs.Search.{render, lookup}
use sklaffkom.Confs.{ConfsEntry}
use sklaffkom.Next.Candidates.{candidate-IsCandidate}
use sklaffkom.Next.Rounds.{Asked, next_round_lem}
use sklaffkom.Next.Spec.{Advances, Advances-refl, Advances-trans, IsNext}
use sklaffkom.Next.{Round, Result, candidate, next_loop, next_text}
use sklaffkom.RawIo.{Works}
use sklaffkom.Reading.Spec.{
  AllWellFormed, is_member, is_some, is_read, read_in, lookup-IsWellFormed,
}
use sklaffkom.Texts.First.{IsOldest}
use sklaffkom.Texts.{TextFiles, last_in}

-- every system call on the `confs` file succeeds
abbrev pub RoundsWork : (ℕ → Round) → Type 0
RoundsWork rounds = (k : ℕ) → Works (rounds k).reading × Works (rounds k).writing

entry_of :
    (conf : ℕ) (es : List ConfsEntry)
    → is_member conf es ≡ true
    → (cse : ConfsEntry) × (lookup conf es ≡ some cse)
entry_of conf es m = elim (Option-cases (lookup conf es)) [
  | inl h ↦ let no_entry : is_member conf es ≡ false = ap is_some h in cc
  | inr found ↦ found
]

suc_zero : 1 ≤ 0 → ⊥
suc_zero h = omega arith

-- A skipped text is before the next one that is looked at.
candidate-less :
    (conf : ℕ) (cse new : ConfsEntry) (es fs : List ConfsEntry)
    → AllWellFormed es
    → AllWellFormed fs
    → lookup conf es ≡ some cse
    → lookup conf fs ≡ some new
    → ((c u : ℕ) → is_read c u es ≡ true → is_read c u fs ≡ true)
    → is_read conf (candidate cse.il).text fs ≡ true
    → (candidate cse.il).text < (candidate new.il).text
candidate-less conf cse new es fs w w' h h' keeps reads =
    let (well, num) = lookup-IsWellFormed conf cse es w h in
    let (well', num') = lookup-IsWellFormed conf new fs w' h' in
    let a = candidate-IsCandidate cse.il well.ordered in
    let b = candidate-IsCandidate new.il well'.ordered in
    let positive = b.positive in
    let t = (candidate new.il).text in
    let unread : is_read conf t fs ≡ false = ap (read_in t) h' ∙ b.unread in
    elim (Bool-cases (ltb (candidate cse.il).text t)) [
      | inl less ↦ ground arith
      | inr more ↦ elim (Bool-cases (ltb t (candidate cse.il).text)) [
        | inl before ↦
            let read : is_read conf t fs ≡ true =
              keeps conf t (ap (read_in t) h ∙ a.below t positive (ground arith)) in
            cc
        | inr same ↦
            let eq : (candidate cse.il).text ≡ t = ground arith in
            let read : is_read conf t fs ≡ true = ap (λ n. is_read conf n fs) (sym eq) ∙ reads in cc
      ]
    ]

-- how the loop ends, from a file of the entries `old`
record Reaches (exists : ℕ → Bool) (conf last : ℕ) (old : List ConfsEntry) (run : Option Result)
    : Type 0 where
  pub text : ℕ
  pub new : List ConfsEntry
  pub returns : run ≡ some (record { value = pos text; nexttext = pos text; file = render new })
  pub advances : Advances exists conf last old new
  pub next : IsNext exists conf last new text

module _ (files : TextFiles) (conf last d : ℕ) (old : IsOldest files.exists last d)
    (last_is : last_in files (pos conf) ≡ some (pos last)) (fits : last ≤ 10000000)
    (nonzero : conf ≢ 0) (rounds : ℕ → Round) (works : RoundsWork rounds) (nx : ℤ) where
  next_loop-Reaches :
      (f k : ℕ) (flag : Bool) (first : ℕ) (es : List ConfsEntry) (cse : ConfsEntry)
      → Asked d first
      → AllWellFormed es
      → lookup conf es ≡ some cse
      → 1 ≤ f
      → last + 2 ≤ f + (candidate cse.il).text
      → Reaches files.exists conf last es (
          next_loop f k rounds files conf
            (pos last)
            nx
            (record { flag = flag; first = first; file = render es }))
  unfolding next_loop
  next_loop-Reaches zero k flag first es cse a w h some_fuel enough = elim (suc_zero some_fuel) [ ]
  next_loop-Reaches (suc f) k flag first [] cse a w h some_fuel enough = cc
  next_loop-Reaches (suc f) k flag first (e ∷ es) cse a w h some_fuel enough =
      elim (next_round_lem files conf last d old last_is fits nonzero (rounds k) (works k).0
        (works k).1 nx e cse es w h flag first a) [
          | inl (n, run, next) ↦ record {
            text = n;
            new = e ∷ es;
            returns = rw run refl;
            advances = Advances-refl w;
            next = next;
          }
          | inr (s, run, skips, within) ↦
              let adv = skips.advances in
              let (cse', h') = entry_of conf skips.new (adv.members conf ∙ ap is_some h) in
              let less =
                candidate-less conf cse cse' (e ∷ es) skips.new w adv.well_formed h h' adv.keeps
                  skips.reads in
              let r =
                next_loop-Reaches f (suc k) s.flag s.first skips.new cse' skips.asked
                  adv.well_formed h' (omega arith) (omega arith) in
              record {
                text = r.text;
                new = r.new;
                returns = rw run (
                    ap
                      (λ b.
                        next_loop f (suc k) rounds files conf (pos last) nx
                          (record { flag = s.flag; first = s.first; file = b }))
                      skips.file
                    ∙ r.returns);
                advances = Advances-trans adv r.advances;
                next = r.next;
              }
        ]

-- next_text in a conference other than the mailbox that the user is a member of, on the bytes of a
-- well-formed file, where every system call succeeds, last_text returns `last`, at most 10000000, and
-- `d` is the oldest text or the last one, with at most three missing numbers in a row from it up to the
-- last one. The loop ends, after at most last + 1 rounds. It returns the least text of 1, …, last that
-- is not read in the new file, which exists, or 0 if all of them are read there; Nexttext is the same.
-- The new file is well-formed with the same memberships; what was read is still read; and what is
-- read in addition are texts of this conference up to the last one that do not exist.
pub next_text-IsNext :
    (files : TextFiles) (rounds : ℕ → Round) (conf last d f : ℕ) (nx : ℤ) (es : List ConfsEntry)
    → conf ≢ 0
    → last_in files (pos conf) ≡ some (pos last)
    → last ≤ 10000000
    → IsOldest files.exists last d
    → RoundsWork rounds
    → AllWellFormed es
    → is_member conf es ≡ true
    → last < f
    → (text : ℕ) × (new : List ConfsEntry) × (next_text f rounds files conf nx (render es)
        ≡ some (record { value = pos text; nexttext = pos text; file = render new }))
      × Advances files.exists conf last es new
      × IsNext files.exists conf last new text
unfolding next_text
next_text-IsNext files rounds conf last d f nx es nonzero last_is fits old works w member enough =
    let (cse, h) = entry_of conf es member in
    let (well, num) = lookup-IsWellFormed conf cse es w h in
    let cand = candidate-IsCandidate cse.il well.ordered in
    let low = cand.positive in
    let r =
      next_loop-Reaches files conf last d old last_is fits nonzero rounds works nx f 0 false 0 es
        cse (inl refl) w h (omega arith) (omega arith) in
    (r.text, r.new, rw (last_is, next_text) r.returns, r.advances, r.next)
