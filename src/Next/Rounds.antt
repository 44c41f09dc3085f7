-- ===== src/Next/Rounds.antt =====
-- One round of next_text (text.c) on the bytes of a well-formed file.
use sklaffkom.Base.{
  ℕ, ◌+◌, ◌≤◌, ◌<◌, Bool, true, false, not, ◌||◌, ◌&&◌, ◌≡◌, ◌⊎◌, refl, ap, ◌∙◌, Option, some, List,
  ◌∷◌, arith, ltb, ◌==◌, Bool-cases, inl, inr, ℤ, pos, Bytes, length, ◌≢◌,
}
use sklaffkom.Confs.Search.{render, lookup, put, lookup-Splits}
use sklaffkom.Confs.{ConfsEntry}
use sklaffkom.Intervals.{covers}
use sklaffkom.Next.{
  Round, State, done, again, Candidate, candidate, rewritten, skip_text, mark_one, mark_first,
  try_text, next_round,
}
use sklaffkom.Next.Candidates.{IsCandidate, candidate-IsCandidate}
use sklaffkom.Next.Lines.{before_first, rewritten-render, length-put-before_first}
use sklaffkom.Next.Spec.{Advances, Advances-Marks, Advances-before_first, IsNext}
use sklaffkom.RawIo.{Calls, Works, open_file-Works, read_file-Works, write_file-Works}
use sklaffkom.Reading.Marks.{find_present}
use sklaffkom.Reading.Refines.{mark_as_read-Marks}
use sklaffkom.Reading.Spec.{
  AllWellFormed, is_member, is_some, is_read, read_in, lookup-IsWellFormed,
}
use sklaffkom.Texts.First.{IsOldest, first_text-IsOldest}
use sklaffkom.Texts.{TextFiles, last_in}

none_less : {z t : ℕ} → z ≡ 0 → t < z → ⊥
none_less e h = omega arith

-- `first` has not been asked for, or it is the oldest text
abbrev pub Asked : ℕ → ℕ → Type 0
Asked d first = (first ≡ 0) ⊎ (first ≡ d)

-- The next round goes on with a file in which the text is read too.
pub record Skips (exists : ℕ → Bool) (conf last d text : ℕ) (old : List ConfsEntry) (s : State)
    : Type 0 where
  pub new : List ConfsEntry
  pub file : s.file ≡ render new
  pub asked : Asked d s.first
  pub advances : Advances exists conf last old new
  pub reads : is_read conf text new ≡ true

module _ (files : TextFiles) (conf last d : ℕ) (old : IsOldest files.exists last d)
    (last_is : last_in files (pos conf) ≡ some (pos last)) (fits : last ≤ 10000000) (calls : Calls)
    (works : Works calls) (nx : ℤ) (e cse : ConfsEntry) (es : List ConfsEntry)
    (w : AllWellFormed (e ∷ es)) (h : lookup conf (e ∷ es) ≡ some cse) (c : Candidate)
    (cand : IsCandidate cse.il c) (high : c.text ≤ last) (gone : files.exists c.text ≡ false) where
  abbrev rest : Option Bytes
  rest = some (render (lookup-Splits conf (e ∷ es) cse h).post)

  mark_one-Skips :
      (flag : Bool) (first : ℕ)
      → Asked d first
      → (s : State) × (mark_one calls c.text conf
            (record { flag = flag; first = first; file = render (e ∷ es) })
          ≡ some (again s))
        × Skips files.exists conf last d c.text (e ∷ es) s
  mark_one-Skips flag first a =
      let (new, run, m) =
        mark_as_read-Marks calls c.text conf e es works w cand.positive (omega arith) in
      let member : is_member conf (e ∷ es) ≡ true = ap is_some h in
      (
        record { flag = flag; first = first; file = render new },
        rw run refl,
        record {
          new = new;
          file = refl;
          asked = a;
          advances = Advances-Marks high gone m;
          reads = m.texts conf c.text ∙ rw member (ground arith);
        },
      )

  mark_first-Skips :
      (flag : Bool)
      → 1 ≤ c.high
      → c.text < d
      → (s : State) × (mark_first calls nx
            (record { flag = flag; first = d; file = render (e ∷ es) })
            cse
            rest
          ≡ some (again s))
        × Skips files.exists conf last d c.text (e ∷ es) s
  mark_first-Skips flag up less =
      let (well, num) = lookup-IsWellFormed conf cse (e ∷ es) w h in
      let top = old.high in
      let new = put (before_first cse d) (e ∷ es) in
      let same : rewritten cse d (render (e ∷ es)) (render (lookup-Splits conf (e ∷ es) cse h).post)
          ≡ render new =
        rewritten-render conf cse cse (e ∷ es) d num h in
      let size : ltb (length (render (e ∷ es)) + 10) (length (render new) + 1) ≡ false =
        ground (arith, length-put-before_first conf cse cse (e ∷ es) d num h refl (omega arith)) in
      let (adv, read) = Advances-before_first d cse c (e ∷ es) old (omega arith) cand up less w h in
      (
        record { flag = flag; first = d; file = render new },
        rw (same, size, open_file-Works works, write_file-Works works, works.closes) refl,
        record { new = new; file = refl; asked = inr refl; advances = adv; reads = read },
      )

  skip_text-Skips :
      (flag : Bool) (first : ℕ)
      → Asked d first
      → (s : State) × (skip_text calls conf nx c cse rest
            (record { flag = flag; first = first; file = render (e ∷ es) })
          ≡ some (again s))
        × Skips files.exists conf last d c.text (e ∷ es) s
  skip_text-Skips flag first (inl unset) =
      let near : (ltb 0 c.high && ltb c.text first) ≡ false = ground arith in
      let (s, run, k) = mark_one-Skips flag first (inl unset) in (s, rw near run, k)
  skip_text-Skips flag first (inr set) = rw set (elim (Bool-cases (ltb 0 c.high && ltb c.text d)) [
    | inl far ↦
        let (s, run, k) = mark_first-Skips flag (ground arith) (ground arith) in (s, rw far run, k)
    | inr near ↦ let (s, run, k) = mark_one-Skips flag d (inr refl) in (s, rw near run, k)
  ])

  try_text-Skips :
      (conf ≢ 0)
      → (flag : Bool) (first : ℕ) → Asked d first
      → (s : State) × (try_text calls files conf nx
            (record { flag = flag; first = first; file = render (e ∷ es) })
            cse
            rest
            c
          ≡ some (again s))
        × Skips files.exists conf last d c.text (e ∷ es) s
  unfolding try_text
  try_text-Skips nonzero flag first a =
      let text : (c.text == 0) ≡ false = ground (arith, cand.positive) in
      let conf' : (conf == 0) ≡ false = ground arith in
      let d_is = (first_text-IsOldest files (pos conf) last d old last_is).0 in
      elim (Bool-cases (not flag && ltb 0 c.high)) [
        | inl ask ↦
            let (s, run, k) = skip_text-Skips true d (inr refl) in
            (s, rw (text, conf', gone, ask, d_is) run, k)
        | inr quiet ↦
            let (s, run, k) = skip_text-Skips flag first a in
            (s, rw (text, conf', gone, quiet) run, k)
      ]

module _ (files : TextFiles) (conf last d : ℕ) (old : IsOldest files.exists last d)
    (last_is : last_in files (pos conf) ≡ some (pos last)) (fits : last ≤ 10000000)
    (nonzero : conf ≢ 0) (round : Round) (reads : Works round.reading)
    (writes : Works round.writing) (nx : ℤ) (e cse : ConfsEntry) (es : List ConfsEntry)
    (w : AllWellFormed (e ∷ es)) (h : lookup conf (e ∷ es) ≡ some cse) where
  -- the text that the round looks at
  abbrev text : ℕ
  text = (candidate cse.il).text

  -- the round ends the loop, with its result
  abbrev pub Ends : State → Type 0
  Ends s =
      (n : ℕ) × (next_round round files conf (pos last) nx s
        ≡ some (done (record { value = pos n; nexttext = pos n; file = s.file })))
      × IsNext files.exists conf last (e ∷ es) n

  -- or it skips a deleted text
  abbrev pub GoesOn : State → Type 0
  GoesOn s =
      (s' : State) × (next_round round files conf (pos last) nx s ≡ some (again s'))
      × Skips files.exists conf last d text (e ∷ es) s'
      × (text ≤ last)

  in_list : (u : ℕ) → is_read conf u (e ∷ es) ≡ covers u cse.il
  in_list u = ap (read_in u) h

  pub next_round_lem :
      (flag : Bool) (first : ℕ)
      → Asked d first
      → Ends (record { flag = flag; first = first; file = render (e ∷ es) })
        ⊎ GoesOn (record { flag = flag; first = first; file = render (e ∷ es) })
  unfolding next_round
  next_round_lem flag first a =
      let (well, num) = lookup-IsWellFormed conf cse (e ∷ es) w h in
      let cand = candidate-IsCandidate cse.il well.ordered in
      let low = cand.positive in
      elim (Bool-cases (ltb last text)) [
        | inl past ↦ inl (
          0,
          rw
              (
                open_file-Works reads,
                read_file-Works reads,
                next_round,
                reads.closes,
                find_present conf e cse es w h,
                past,
              )
              (unfold try_text in refl),
          record {
            below = λ u from to z. in_list u ∙ cand.below u from (ground arith);
            here = λ no_text. elim (none_less refl no_text) [ ];
          },
        )
        | inr within ↦ elim (Bool-cases (files.exists text)) [
          | inl there ↦ inl (
            text,
            rw
                (
                  open_file-Works reads,
                  read_file-Works reads,
                  next_round,
                  reads.closes,
                  find_present conf e cse es w h,
                  within,
                )
                (unfold try_text in
                  elim (Bool-cases (text == 0 || conf == 0)) [
                    | inl z ↦ rw z refl
                    | inr z ↦ rw (z, there) refl
                  ]),
            record {
              below = λ u from to z. in_list u ∙ cand.below u from (ground arith);
              here = λ k. (ground arith, there, in_list text ∙ cand.unread);
            },
          )
          | inr gone ↦
              let (s, run, k) =
                try_text-Skips files conf last d old last_is fits round.writing writes nx e cse es w
                  h (candidate cse.il) cand (ground arith) gone nonzero flag first a in
              inr (
                s,
                rw
                    (
                      open_file-Works reads,
                      read_file-Works reads,
                      next_round,
                      reads.closes,
                      find_present conf e cse es w h,
                      within,
                    )
                    run,
                k,
                ground arith,
              )
        ]
      ]
