-- ===== src/Next/Candidates.antt =====
-- The text that a round of next_text (text.c) looks at.
use sklaffkom.Base.{ℕ, ◌+◌, ◌≤◌, ◌<◌, true, false, ◌≡◌, [], ◌∷◌, arith, ltb, Bool-cases, inl, inr}
use sklaffkom.Intervals.{Intervals, covers}
use sklaffkom.Intervals.Order.{IsSeparated, covers-below}
use sklaffkom.Next.{Candidate, candidate}

-- `c.text` is the least text of 1, 2, … that the list does not hold. Where `c.high` is not 0, the
-- list holds no text above it.
pub record IsCandidate (il : Intervals) (c : Candidate) : Type 0 where
  pub positive : 1 ≤ c.text
  pub unread : covers c.text il ≡ false
  pub below : (u : ℕ) → 1 ≤ u → u < c.text → covers u il ≡ true
  pub above : 1 ≤ c.high → (u : ℕ) → covers u il ≡ true → (1 ≤ u) × (u < c.text)

pub candidate-IsCandidate : (il : Intervals) → IsSeparated 1 il → IsCandidate il (candidate il)
unfolding covers
candidate-IsCandidate [] s = record {
  positive = omega arith;
  unread = ground arith;
  below = λ u low high. ground arith;
  above = λ h u c. ground arith;
}
candidate-IsCandidate (x ∷ []) s = elim (Bool-cases (ltb 1 x.from)) [
  | inl late ↦ rw late (record {
    positive = omega arith;
    unread = ground arith;
    below = λ u low high. ground arith;
    above = λ h u c. ground arith;
  })
  | inr early ↦ rw early (record {
    positive = omega arith;
    unread = ground arith;
    below = λ u low high. ground arith;
    above = λ h u c. ground arith;
  })
]
candidate-IsCandidate (x ∷ y ∷ il) s = elim (Bool-cases (ltb 1 x.from)) [
  | inl late ↦ rw late (record {
    positive = omega arith;
    unread = ground (arith, covers-below 1 (x.to + 2) (y ∷ il) s.2);
    below = λ u low high. ground arith;
    above = λ h u c. ground arith;
  })
  | inr early ↦ rw early (record {
    positive = omega arith;
    unread = ground (arith, covers-below (x.to + 1) (x.to + 2) (y ∷ il) s.2);
    below = λ u low high. ground arith;
    above = λ h u c. ground arith;
  })
]
