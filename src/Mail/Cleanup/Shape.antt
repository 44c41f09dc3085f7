-- ===== src/Mail/Cleanup/Shape.antt =====
-- The shape of the text that cleanup_text of mailbody.c gives.
use mathlib.Core.List.{reverse-cons, reverse-append, reverse-reverse}
use mathlib.Core.Path.{subst}
use sklaffkom.Base.{
  ℕ, inl, inr, [], ◌∷◌, true, false, Bool-cases, Bytes, arith, ◌≡◌, sym, reverse, ◌++◌, ◌∙◌, length,
  ap, ◌≢◌, append_assoc, codes,
}
use sklaffkom.Libc.{skip_spaces, isspace}
use sklaffkom.Mail.Headers.{is_blank}
use sklaffkom.Mail.Cleanup.{clean_rounds, fresh_cleaner, cleanup_text}
use sklaffkom.Mail.Cleanup.Start.{clean_rounds-Tidy, Tidy-skip_spaces}
use sklaffkom.Mail.Cleanup.Neat.{Tidy}

-- what is left of the text in the end, from its last byte to its first
abbrev left_over : Bytes → Bytes
left_over s = skip_spaces (clean_rounds (length s) s fresh_cleaner).out

Tidy-suffix : (w s : Bytes) → Tidy (w ++ s) → Tidy s
Tidy-suffix [] s h = h
Tidy-suffix (c ∷ w) s h = Tidy-suffix w s h.2

cleaned-Tidy : (s : Bytes) → Tidy (b'\n' ∷ (left_over s ++ b'\n' ∷ []))
cleaned-Tidy s =
    Tidy-skip_spaces (clean_rounds (length s) s fresh_cleaner).out (clean_rounds-Tidy (length s) s)

skip_spaces-first : (s : Bytes) (c : ℕ) (t : Bytes) → skip_spaces s ≡ c ∷ t → isspace c ≡ false
unfolding skip_spaces
skip_spaces-first [] c t e = cc
skip_spaces-first (x ∷ s) c t e = elim (Bool-cases (isspace x)) [
  | inl f ↦ skip_spaces-first s c t (rw f at e)
  | inr f ↦ let same : x ∷ s ≡ c ∷ t = rw f at e in ground (arith, f)
]

-- a piece of the text behind a line feed, seen from its end
piece :
    (s a x b : Bytes)
    → b'\n' ∷ cleanup_text s ≡ a ++ (x ++ b)
    → b'\n' ∷ (left_over s ++ b'\n' ∷ []) ≡ reverse b ++ (reverse x ++ reverse a)
unfolding cleanup_text
piece s a x b e =
    let text = reverse (b'\n' ∷ left_over s) in
    ap (λ (r : Bytes). r ++ b'\n' ∷ []) (sym (reverse-reverse (b'\n' ∷ left_over s)))
    ∙ sym (reverse-cons b'\n' text)
    ∙ ap reverse e
    ∙ reverse-append a (x ++ b)
    ∙ ap (λ (r : Bytes). r ++ reverse a) (reverse-append x b)
    ∙ append_assoc (reverse b) (reverse x) (reverse a)

-- The text that cleanup_text gives ends in a line feed, before which no white space stands. With a
-- line feed before it, it has nowhere four line feeds in a row: the text has never more than two blank
-- lines together, at its start neither. And no blank or tab stands before a line feed.
pub cleanup_text-shape :
    (s : Bytes)
    → ((t : Bytes) × (cleanup_text s ≡ t ++ b'\n' ∷ [])
        × ((a : Bytes) (c : ℕ) → t ≡ a ++ c ∷ [] → isspace c ≡ false))
      × ((a b : Bytes) → b'\n' ∷ cleanup_text s ≢ a ++ (codes "\n\n\n\n" ++ b))
      × ((a b : Bytes) (c : ℕ) → is_blank c ≡ true → cleanup_text s ≢ a ++ ((c ∷ b'\n' ∷ []) ++ b))
cleanup_text-shape s = (
  (
    reverse (left_over s),
    unfold cleanup_text in reverse-cons b'\n' (left_over s),
    λ a c e.
        skip_spaces-first (clean_rounds (length s) s fresh_cleaner).out c (reverse a)
          (sym (reverse-reverse (left_over s)) ∙ ap reverse e ∙ reverse-append a (c ∷ [])),
  ),
  λ a b e. four_feeds a b (subst (λ x. Tidy x) (piece s a (codes "\n\n\n\n") b e) (cleaned-Tidy s)),
  λ a b c h e. blank_feed (b'\n' ∷ a) b c h (
      subst (λ x. Tidy x) (piece s (b'\n' ∷ a) (c ∷ b'\n' ∷ []) b (ap (λ (r : Bytes). b'\n' ∷ r) e))
        (cleaned-Tidy s)),
)
  where
    four_feeds : (a b : Bytes) → Tidy (reverse b ++ (reverse (codes "\n\n\n\n") ++ reverse a)) → ⊥
    four_feeds a b h =
        let (le, _, _) = Tidy-suffix (reverse b) (reverse (codes "\n\n\n\n") ++ reverse a) h in
        omega (arith, le)

    blank_feed :
        (a b : Bytes) (c : ℕ)
        → is_blank c ≡ true
        → Tidy (reverse b ++ (reverse (c ∷ b'\n' ∷ []) ++ reverse a))
        → ⊥
    blank_feed a b c e h =
        let (_, no_blank, _) = Tidy-suffix (reverse b) (reverse (c ∷ b'\n' ∷ []) ++ reverse a) h in
        cc
