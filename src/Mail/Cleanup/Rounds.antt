-- ===== src/Mail/Cleanup/Rounds.antt =====
-- The links that cleanup_text of mailbody.c takes, and that its loop has rounds enough.
use sklaffkom.Mail.Urls.Visible.{Visible}
use sklaffkom.Base.{
  ℕ, zero, suc, refl, inl, inr, [], ◌∷◌, true, false, Bool-cases, Bytes, Bool, ◌≡◌, All, arith,
  ◌&&◌, ◌==◌, is_empty, length, ==_iff, ◌≤◌, drop, if◌then◌else◌, length-drop,
}
use sklaffkom.Mail.{drop_back}
use sklaffkom.Mail.Urls.{is_url_start, url_char, clean_url}
use sklaffkom.Mail.Cleanup.{
  url_at, url_chars, ends_sentence, clean_rounds, put_url, take_byte, Cleaner,
}

url_at-first : (c : ℕ) (s : Bytes) → is_url_start (c ∷ s) ≡ true → c ≡ b'h'
url_at-first c s h = elim (Bool-cases (c == b'h')) [
  | inl e ↦ (==_iff c b'h').0 e
  | inr e ↦ let clash : false ≡ true = rw e at h in cc
]

-- a link starts with its first letter
pub url_at-cons :
    (c : ℕ) (s : Bytes) → is_url_start (c ∷ s) ≡ true → (u : Bytes) × (url_at (c ∷ s) ≡ b'h' ∷ u)
unfolding url_at url_chars drop_back
url_at-cons c s h = (drop_back (λ d. ends_sentence d) (url_chars s), rw (url_at-first c s h) refl)

url_chars-Visible : (s : Bytes) → All Visible (url_chars s)
unfolding url_chars
url_chars-Visible [] = tt
url_chars-Visible (c ∷ s) = elim (Bool-cases (url_char c)) [
  | inl e ↦ rw e (ground (arith, e), url_chars-Visible s)
  | inr e ↦ rw e tt
]

drop_back-All : (test : ℕ → Bool) (s : Bytes) → All Visible s → All Visible (drop_back test s)
unfolding drop_back
drop_back-All test [] h = tt
drop_back-All test (c ∷ s) (hc, hs) = elim (Bool-cases (test c && is_empty (drop_back test s))) [
  | inl e ↦ rw e tt
  | inr e ↦ rw e (hc, drop_back-All test s hs)
]

pub url_at-Visible : (s : Bytes) → All Visible (url_at s)
unfolding url_at
url_at-Visible s = drop_back-All (λ c. ends_sentence c) (url_chars s) (url_chars-Visible s)

pub clean_rounds-step :
    (f c : ℕ) (s : Bytes) (st : Cleaner)
    → clean_rounds (suc f) (c ∷ s) st ≡ (
        let u = url_at (c ∷ s) in
        if is_url_start (c ∷ s)
        then clean_rounds f (drop (length u) (c ∷ s)) (put_url (clean_url u) st)
        else clean_rounds f s (take_byte c st))
unfolding clean_rounds
clean_rounds-step f c s st = refl

pub clean_rounds-end : (f : ℕ) (st : Cleaner) → clean_rounds f [] st ≡ st
unfolding clean_rounds
clean_rounds-end zero st = refl
clean_rounds-end (suc f) st = refl

-- a link takes a byte at least
behind_url :
    (c : ℕ) (s : Bytes)
    → is_url_start (c ∷ s) ≡ true
    → length (drop (length (url_at (c ∷ s))) (c ∷ s)) ≤ length s
behind_url c s h = let (u, e) = url_at-cons c s h in rw e (length-drop (length u) s)

-- more rounds than there are bytes change nothing
pub clean_rounds-enough :
    (f g : ℕ) (s : Bytes) (st : Cleaner)
    → length s ≤ f
    → length s ≤ g
    → clean_rounds f s st ≡ clean_rounds g s st
clean_rounds-enough f g [] st hf hg = rw (clean_rounds-end f st, clean_rounds-end g st) refl
clean_rounds-enough zero g (c ∷ s) st hf hg = absurd (omega arith)
clean_rounds-enough (suc f) zero (c ∷ s) st hf hg = absurd (omega arith)
clean_rounds-enough (suc f) (suc g) (c ∷ s) st hf hg =
    let u = url_at (c ∷ s) in
    let rest = drop (length u) (c ∷ s) in
    elim (Bool-cases (is_url_start (c ∷ s))) [
      | inl e ↦
          let short = behind_url c s e in
          rw (clean_rounds-step f c s st, clean_rounds-step g c s st, e)
            (clean_rounds-enough f g rest (put_url (clean_url u) st) (omega (arith, short))
              (omega (arith, short)))
      | inr e ↦
          rw (clean_rounds-step f c s st, clean_rounds-step g c s st, e)
            (clean_rounds-enough f g s (take_byte c st) (omega arith) (omega arith))
    ]
