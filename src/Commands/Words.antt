-- ===== src/Commands/Words.antt =====
-- How wc and the loops of parse_strings go through a string without brackets.
use sklaffkom.Base.{
  ℕ, zero, suc, refl, inl, inr, [], ◌∷◌, true, false, Bool-cases, some, Bytes, Bool, length, ◌≡◌,
  ◌<◌, ◌≤◌, pos, arith, ◌+◌, ==_refl, ap, ◌∙◌, ◌==◌, leb, ◌-◌, ◌>>=◌, if◌then◌else◌,
}
use sklaffkom.Libc.Decimal.{Lacks}
use sklaffkom.Commands.{
  is_sep, starts, skip_seps, skip_word, wc_loop, word_count, behind_space, skip_bracket, skip_space,
  same_words, next_word,
}

Lacks-skip_seps : (s : Bytes) → Lacks b'(' s → Lacks b'(' (skip_seps s)
unfolding skip_seps
Lacks-skip_seps [] h = tt
Lacks-skip_seps (c ∷ s) (hc, hs) = elim (Bool-cases (is_sep c)) [
  | inl e ↦ rw e (Lacks-skip_seps s hs)
  | inr e ↦ rw e (hc, hs)
]

length-skip_seps : (s : Bytes) → length (skip_seps s) ≤ length s
unfolding skip_seps
length-skip_seps [] = omega arith
length-skip_seps (c ∷ s) = ground (arith, length-skip_seps s)

starts-Lacks : (s : Bytes) → Lacks b'(' s → starts b'(' s ≡ false
starts-Lacks [] h = refl
starts-Lacks (c ∷ s) h = h.0

pub skip_bracket-Lacks : (s : Bytes) → Lacks b'(' s → skip_bracket s ≡ some s
unfolding skip_bracket
skip_bracket-Lacks s h = rw (starts-Lacks s h) refl

-- at a separator no word is skipped
skip_word-sep : (c : ℕ) (s : Bytes) → is_sep c ≡ true → skip_seps (skip_word (c ∷ s)) ≡ skip_seps s
unfolding skip_word skip_seps
skip_word-sep c s e = rw e (rw e refl)

skip_space-sep :
    (c : ℕ) (s : Bytes) → is_sep c ≡ true → Lacks b'(' s → skip_space (c ∷ s) ≡ some (skip_seps s)
unfolding skip_space behind_space
skip_space-sep c s e h =
    rw (skip_word-sep c s e, starts-Lacks (skip_seps s) (Lacks-skip_seps s h)) refl

wc_loop-sep :
    (f : ℕ) (front : Bool) (c : ℕ) (s : Bytes) (more : ℕ)
    → is_sep c ≡ true
    → wc_loop (suc f) front (c ∷ s) more 0
      ≡ wc_loop f true (skip_seps s) (next_word (skip_seps s) more) 0
unfolding wc_loop
wc_loop-sep f front c s more e = rw e refl

wc_loop-letter :
    (f : ℕ) (front : Bool) (c : ℕ) (s : Bytes) (more : ℕ)
    → is_sep c ≡ false
    → (c == b'(') ≡ false
    → wc_loop (suc f) front (c ∷ s) more 0 ≡ wc_loop f false s more 0
unfolding wc_loop
wc_loop-letter f front c s more e h = rw (e, h) refl

word_count-up : (more : ℕ) → word_count more 0 ≡ pos (suc more)
word_count-up more =
    let small : leb 0 (suc more) ≡ true = ground arith in
    let whole : suc more - 0 ≡ suc more = omega arith in rw small (ap pos whole)

wc_loop-end :
    (f : ℕ) (front : Bool) (more : ℕ) → wc_loop (suc f) front [] more 0 ≡ some (pos (suc more))
unfolding wc_loop
wc_loop-end f front more = ap some (word_count-up more)

same_words-suc :
    (f c : ℕ) (s : Bytes) (words : ℕ)
    → same_words (suc f) (c ∷ s) (c ∷ s) words ≡ (
        if c == c
        then (if is_sep c
            then skip_space (c ∷ s)
              >>= (λ a. skip_space (c ∷ s) >>= (λ b. same_words f a b (next_word b words)))
            else same_words f s s words)
        else some (c ∷ s, c ∷ s, words))
unfolding same_words
same_words-suc f c s words = refl

same_words-sep :
    (f c : ℕ) (s : Bytes) (words : ℕ)
    → is_sep c ≡ true
    → Lacks b'(' s
    → same_words (suc f) (c ∷ s) (c ∷ s) words
      ≡ same_words f (skip_seps s) (skip_seps s) (next_word (skip_seps s) words)
same_words-sep f c s words e h =
    rw (same_words-suc f c s words) (rw (==_refl c, e, skip_space-sep c s e h) refl)

same_words-letter :
    (f c : ℕ) (s : Bytes) (words : ℕ)
    → is_sep c ≡ false
    → same_words (suc f) (c ∷ s) (c ∷ s) words ≡ same_words f s s words
same_words-letter f c s words e = rw (same_words-suc f c s words) (rw (==_refl c, e) refl)

next_word-add : (s : Bytes) (k n : ℕ) → k + next_word s n ≡ (k + next_word s 0) + n
next_word-add [] k n = omega arith
next_word-add (c ∷ s) k n = omega arith

-- Both go through the same words: `k` more of them than were counted before.
pub record Counts (f : ℕ) (s : Bytes) : Type 0 where
  pub k : ℕ
  pub counted : (front : Bool) (more : ℕ) → wc_loop f front s more 0 ≡ some (pos (suc (k + more)))
  pub matched : (words : ℕ) → same_words f s s words ≡ some ([], [], k + words)

pub count_words : (f : ℕ) (s : Bytes) → length s < f → Lacks b'(' s → Counts f s
count_words zero s h lacks = absurd (omega arith)
count_words (suc f) [] h lacks = record {
  k = 0;
  counted = λ front more. wc_loop-end f front more ∙ ap (λ n. some (pos (suc n))) (omega arith);
  matched = λ words. unfold same_words in ap (λ n. some ([], [], n)) (omega arith);
}
count_words (suc f) (c ∷ s) h (hc, hs) = elim (Bool-cases (is_sep c)) [
  | inl e ↦
      let rest = skip_seps s in
      let ih = count_words f rest (omega (arith, length-skip_seps s)) (Lacks-skip_seps s hs) in
      record {
        k = ih.k + next_word rest 0;
        counted = λ front more.
            wc_loop-sep f front c s more e
            ∙ ih.counted true (next_word rest more)
            ∙ ap (λ n. some (pos (suc n))) (next_word-add rest ih.k more);
        matched = λ words.
            same_words-sep f c s words e hs
            ∙ ih.matched (next_word rest words)
            ∙ ap (λ n. some ([], [], n)) (next_word-add rest ih.k words);
      }
  | inr e ↦
      let ih = count_words f s (omega arith) hs in
      record {
        k = ih.k;
        counted = λ front more. wc_loop-letter f front c s more e hc ∙ ih.counted false more;
        matched = λ words. same_words-letter f c s words e ∙ ih.matched words;
      }
]
