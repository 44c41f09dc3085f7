-- ===== src/Commands/SameName.antt =====
-- parse_strings on two strings that are the same but for case and trailing spaces.
use sklaffkom.Base.{
  ℕ, ℤ, pos, suc, refl, [], ◌∷◌, true, none, some, ==_refl, sym, length, Bytes, ◌≡◌, arith, ◌+◌,
  ◌>>=◌, Option, if◌then◌else◌, ◌==◌,
}
use sklaffkom.Libc.Decimal.{Lacks}
use sklaffkom.Users.Lookups.{rtrim}
use sklaffkom.Commands.{
  wc, up_string, match_round, match_loop, match_tests, both_spaces, parse_strings, skip_bracket,
  wc_loop, same_words,
}
use sklaffkom.Commands.Words.{count_words, skip_bracket-Lacks}

match_round-cons :
    (again : Bytes → Bytes → ℕ → Option (ℕ × Option Bytes)) (wcnt : ℤ) (c : ℕ) (s : Bytes)
    → match_round again wcnt (c ∷ s) (c ∷ s) 0 ≡ (
        if c == c
        then same_words (suc (length (c ∷ s))) (c ∷ s) (c ∷ s) 0 >>= (λ (a2, b2, words2).
          skip_bracket a2 >>= (λ a3. skip_bracket b2 >>= (λ b3.
            both_spaces a3 b3 words2
            >>= (λ (a4, b4, words4). match_tests again wcnt a4 b4 words4))))
        else some (0, none))
unfolding match_round
match_round-cons again wcnt c s = refl

match_loop-suc :
    (f : ℕ) (wcnt : ℤ) (s : Bytes)
    → match_loop (suc f) wcnt s s 0 ≡ (
        skip_bracket s
        >>= (λ a. skip_bracket s >>= (λ b. match_round (match_loop f wcnt) wcnt a b 0)))
unfolding match_loop
match_loop-suc f wcnt s = refl

behind_words :
    (again : Bytes → Bytes → ℕ → Option (ℕ × Option Bytes)) (wcnt : ℤ) (n : ℕ)
    → (skip_bracket [] >>= (λ a3. skip_bracket [] >>= (λ b3.
        both_spaces a3 b3 n >>= (λ (a4, b4, words4). match_tests again wcnt a4 b4 words4))))
      ≡ some (suc n, none)
unfolding skip_bracket both_spaces match_tests
behind_words again wcnt n = refl

-- a round takes the whole of a string that is compared with itself
match_round-same :
    (again : Bytes → Bytes → ℕ → Option (ℕ × Option Bytes)) (wcnt : ℤ) (c : ℕ) (s : Bytes) (n : ℕ)
    → same_words (suc (length (c ∷ s))) (c ∷ s) (c ∷ s) 0 ≡ some ([], [], n)
    → match_round again wcnt (c ∷ s) (c ∷ s) 0 ≡ some (suc n, none)
match_round-same again wcnt c s n e =
    rw (match_round-cons again wcnt c s) (rw (==_refl c, e) (behind_words again wcnt n))

match_loop-same :
    (f : ℕ) (wcnt : ℤ) (s : Bytes)
    → Lacks b'(' s
    → (n : ℕ) × (match_loop (suc f) wcnt s s 0 ≡ some (n, none)) × (wc s ≡ some (pos n))
unfolding wc
match_loop-same f wcnt [] h =
    (1, unfold match_loop match_round skip_bracket in refl, unfold wc_loop in refl)
match_loop-same f wcnt (c ∷ s) h =
    let all = c ∷ s in
    let ih = count_words (suc (length all)) all (omega arith) h in
    (
      suc (ih.k + 0),
      rw (match_loop-suc f wcnt all, skip_bracket-Lacks all h)
          (match_round-same (match_loop f wcnt) wcnt c s (ih.k + 0) (ih.matched 0)),
      ih.counted true 0,
    )

-- Two strings without a bracket that are the same in capitals, but for spaces at their ends: for
-- parse_strings they match in as many words as wc counts in the string so trimmed and written, which
-- is what parse takes for a full hit, whatever number of words it asks for; and no parameter is
-- written.
pub parse_strings-wc :
    (s1 s2 : Bytes) (wcnt : ℤ)
    → up_string (rtrim s1) ≡ up_string (rtrim s2)
    → Lacks b'(' (up_string (rtrim s1))
    → (n : ℕ) × (parse_strings s1 s2 wcnt ≡ some (n, none))
      × (wc (up_string (rtrim s1)) ≡ some (pos n))
unfolding parse_strings
parse_strings-wc s1 s2 wcnt same h =
    let (n, matched, counted) = match_loop-same (length (rtrim s1)) wcnt (up_string (rtrim s1)) h in
    (n, rw (sym same, matched) refl, counted)
