-- ===== src/Next/Spec.antt =====
-- What next_text (text.c) promises: the next unread text, and only deleted texts marked as read.
use sklaffkom.Base.{
  ℕ, ◌-◌, ◌≤◌, ◌<◌, Bool, true, false, ◌||◌, ◌&&◌, ◌≡◌, refl, ap, ◌∙◌, some, List, [], ◌∷◌, arith,
  ltb, leb, ◌==◌, Bool-cases, inl, inr, if◌then◌else◌, sym,
}
use sklaffkom.Confs.Search.{lookup, put}
use sklaffkom.Confs.{ConfsEntry}
use sklaffkom.Intervals.{Intervals, covers}
use sklaffkom.Libc.{long_max}
use sklaffkom.Next.{Candidate}
use sklaffkom.Next.Candidates.{IsCandidate}
use sklaffkom.Next.Lines.{before_first}
use sklaffkom.Reading.Refines.{Marks, read_here}
use sklaffkom.Reading.Spec.{
  AllWellFormed, is_member, is_read, lookup-IsWellFormed, AllWellFormed-put, is_read-put,
  is_member-put,
}
use sklaffkom.Texts.First.{IsOldest}

-- The memberships are the same, what was read stays read, and what is read now and was not before is
-- a text of the conference up to the last one that does not exist.
pub record Advances (exists : ℕ → Bool) (conf last : ℕ) (old new : List ConfsEntry) : Type 0 where
  pub well_formed : AllWellFormed new
  pub members : (c : ℕ) → is_member c new ≡ is_member c old
  pub keeps : (c u : ℕ) → is_read c u old ≡ true → is_read c u new ≡ true
  pub adds :
      (c u : ℕ)
      → is_read c u old ≡ false
      → is_read c u new ≡ true
      → (conf == c && leb u last && (if exists u then false else true)) ≡ true

-- `n` is the least unread text of 1, …, last, and exists; or it is 0 and all of them are read.
pub record IsNext (exists : ℕ → Bool) (conf last : ℕ) (es : List ConfsEntry) (n : ℕ) : Type 0 where
  pub below : (u : ℕ) → 1 ≤ u → u ≤ last → ((n == 0) || ltb u n) ≡ true → is_read conf u es ≡ true
  pub here : 1 ≤ n → (n ≤ last) × (exists n ≡ true) × (is_read conf n es ≡ false)

module _ {exists : ℕ → Bool} {conf last : ℕ} where
  pub Advances-refl : {es : List ConfsEntry} → AllWellFormed es → Advances exists conf last es es
  Advances-refl w = record {
    well_formed = w;
    members = λ c. refl;
    keeps = λ c u r. r;
    adds = λ c u f t. cc;
  }

  pub Advances-trans :
      {a b c : List ConfsEntry}
      → Advances exists conf last a b
      → Advances exists conf last b c
      → Advances exists conf last a c
  Advances-trans {b = b} p q = record {
    well_formed = q.well_formed;
    members = λ c. q.members c ∙ p.members c;
    keeps = λ c u r. q.keeps c u (p.keeps c u r);
    adds = λ c u f t. elim (Bool-cases (is_read c u b)) [
      | inl mid ↦ p.adds c u f mid
      | inr mid ↦ q.adds c u mid t
    ];
  }

  -- mark_as_read on a deleted text
  pub Advances-Marks :
      {text : ℕ} {old new : List ConfsEntry}
      → text ≤ last
      → exists text ≡ false
      → Marks text conf old new
      → Advances exists conf last old new
  Advances-Marks {text = text} high gone m = record {
    well_formed = m.well_formed;
    members = m.members;
    keeps = λ c u r. m.texts c u ∙ (ground arith);
    adds = λ c u f t. elim (Bool-cases (u == text)) [
      | inl e ↦
          let same : u ≡ text = ground arith in
          let gone' : exists u ≡ false = ap exists same ∙ gone in ground (arith, m.texts c u)
      | inr e ↦ ground (arith, m.texts c u)
    ];
  }

  -- the line for all texts before the first one
  pub Advances-before_first :
      (d : ℕ) (cse : ConfsEntry) (c : Candidate) (es : List ConfsEntry)
      → IsOldest exists last d
      → last ≤ long_max
      → IsCandidate cse.il c
      → 1 ≤ c.high
      → c.text < d
      → AllWellFormed es
      → (h : lookup conf es ≡ some cse)
      → Advances exists conf last es (put (before_first cse d) es)
        × (is_read conf c.text (put (before_first cse d) es) ≡ true)
  Advances-before_first d cse c es old fits cand high less w h =
      let (well, num) = lookup-IsWellFormed conf cse es w h in
      let top = old.high in
      let il : Intervals = record { from = 1; to = d - 1 } ∷ [] in
      (
        record {
          well_formed =
              AllWellFormed-put _ es
                (record {
                  fits = (well.fits.0, (omega arith, omega arith, tt));
                  ordered = (omega arith, omega arith, tt);
                })
                w;
          members = λ c'. is_member-put conf c' cse il es h num;
          keeps = λ c' u r. is_read-put conf c' u cse il es h num ∙ elim (Bool-cases (conf == c')) [
            | inl e ↦
                let read : covers u cse.il ≡ true = sym (read_here conf c' u cse es h e) ∙ r in
                let (low, up) = cand.above high u read in rw e (unfold covers in ground arith)
            | inr e ↦ rw e r
          ];
          adds = λ c' u f t.
              let t' = sym (is_read-put conf c' u cse il es h num) ∙ t in
              elim (Bool-cases (conf == c')) [
                | inl e ↦
                    let read : covers u il ≡ true = rw e at t' in
                    let less' : u < d = unfold covers in ground arith in
                    let gone = old.before u less' in rw (e, gone) (ground arith)
                | inr e ↦ let t'' : is_read c' u es ≡ true = rw e at t' in cc
              ];
        },
        is_read-put conf conf c.text cse il es h num
            ∙ (unfold covers in ground (arith, cand.positive)),
      )
