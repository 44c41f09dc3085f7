-- ===== src/Mail/Cleanup/Start.antt =====
-- The rounds of cleanup_text of mailbody.c behind a line feed, as at the start of a text: they do not
-- look at what is written before them, so that what holds of the end of a line holds there.
use mathlib.Core.Path.{subst}
use sklaffkom.Base.{
  ℕ, zero, suc, refl, inl, inr, [], ◌∷◌, false, Bool-cases, Bytes, ◌≡◌, ◌++◌, reverse, drop, length,
  append_assoc, ◌∙◌, ap, ltb, ◌==◌, ◌&&◌, arith, Bool,
}
use sklaffkom.Libc.{skip_spaces, isspace}
use sklaffkom.Mail.Headers.{is_blank, skip_blanks}
use sklaffkom.Mail.Urls.{is_url_start, clean_url}
use sklaffkom.Mail.Cleanup.{
  Cleaner, put_url, put_newline, take_byte, clean_rounds, url_at, fresh_cleaner,
}
use sklaffkom.Mail.Cleanup.Rounds.{clean_rounds-step, clean_rounds-end}
use sklaffkom.Mail.Cleanup.Neat.{Neat, Tidy, clean_rounds-Neat}

-- the same text, with a line feed before it
abbrev behind_feed : Cleaner → Cleaner
behind_feed st = record {
  out = st.out ++ b'\n' ∷ [];
  col = st.col;
  blank_run = st.blank_run;
  line_has_text = st.line_has_text;
  urls_cleaned = st.urls_cleaned;
  blank_lines_removed = st.blank_lines_removed;
}

skip_blanks-feed : (s : Bytes) → skip_blanks (s ++ b'\n' ∷ []) ≡ skip_blanks s ++ b'\n' ∷ []
unfolding skip_blanks
skip_blanks-feed [] = refl
skip_blanks-feed (c ∷ s) = elim (Bool-cases (is_blank c)) [
  | inl e ↦ rw e (skip_blanks-feed s)
  | inr e ↦ rw e refl
]

put_newline-feed : (st : Cleaner) → put_newline (behind_feed st) ≡ behind_feed (put_newline st)
unfolding put_newline
put_newline-feed st = elim (Bool-cases st.line_has_text) [
  | inl e ↦ rw (e, skip_blanks-feed st.out) refl
  | inr e ↦ elim (Bool-cases (ltb 2 (suc st.blank_run))) [
    | inl f ↦ rw (e, f, skip_blanks-feed st.out) refl
    | inr f ↦ rw (e, f, skip_blanks-feed st.out) refl
  ]
]

take_byte-feed :
    (c : ℕ) (st : Cleaner) → take_byte c (behind_feed st) ≡ behind_feed (take_byte c st)
unfolding take_byte
take_byte-feed c st =
    let newline = put_newline-feed st in
    elim (Bool-cases (c == b'\r')) [
      | inl e ↦ rw e refl
      | inr e ↦ elim (Bool-cases (c == b'\n')) [
        | inl f ↦ rw (e, f) newline
        | inr f ↦ elim (Bool-cases (is_blank c && st.col == 0)) [
          | inl g ↦ rw (e, f, g) refl
          | inr g ↦ rw (e, f, g) refl
        ]
      ]
    ]

put_url-feed :
    (link : Bytes × Bool) (st : Cleaner)
    → put_url link (behind_feed st) ≡ behind_feed (put_url link st)
put_url-feed (u, changed) st = rw (append_assoc (reverse u) st.out (b'\n' ∷ [])) refl

clean_rounds-feed :
    (f : ℕ) (s : Bytes) (st : Cleaner)
    → clean_rounds f s (behind_feed st) ≡ behind_feed (clean_rounds f s st)
clean_rounds-feed f [] st = rw (clean_rounds-end f (behind_feed st), clean_rounds-end f st) refl
clean_rounds-feed zero (c ∷ s) st = unfold clean_rounds in refl
clean_rounds-feed (suc f) (c ∷ s) st =
    let u = url_at (c ∷ s) in
    elim (Bool-cases (is_url_start (c ∷ s))) [
      | inl e ↦
          rw (clean_rounds-step f c s (behind_feed st), clean_rounds-step f c s st, e)
            (ap (λ x. clean_rounds f (drop (length u) (c ∷ s)) x) (put_url-feed (clean_url u) st)
              ∙ clean_rounds-feed f (drop (length u) (c ∷ s)) (put_url (clean_url u) st))
      | inr e ↦
          rw (clean_rounds-step f c s (behind_feed st), clean_rounds-step f c s st, e)
            (ap (λ x. clean_rounds f s x) (take_byte-feed c st)
              ∙ clean_rounds-feed f s (take_byte c st))
    ]

Neat-fresh : Neat (behind_feed fresh_cleaner)
Neat-fresh = record { tidy = (omega arith, refl, tt); feeds = unfold skip_blanks in omega arith }

pub clean_rounds-Tidy :
    (f : ℕ) (s : Bytes) → Tidy ((clean_rounds f s fresh_cleaner).out ++ b'\n' ∷ [])
clean_rounds-Tidy f s =
    subst (λ st. Tidy st.out) (clean_rounds-feed f s fresh_cleaner)
      (clean_rounds-Neat f s (behind_feed fresh_cleaner) Neat-fresh).tidy

-- the white space at the end goes, and a line feed comes instead
pub Tidy-skip_spaces :
    (s : Bytes) → Tidy (s ++ b'\n' ∷ []) → Tidy (b'\n' ∷ (skip_spaces s ++ b'\n' ∷ []))
unfolding skip_spaces
Tidy-skip_spaces [] h = (omega arith, refl, h)
Tidy-skip_spaces (c ∷ s) h = elim (Bool-cases (isspace c)) [
  | inl e ↦ rw e (Tidy-skip_spaces s h.2)
  | inr e ↦
      let lf : (c == b'\n') ≡ false = ground arith in
      let blank : is_blank c ≡ false = ground arith in rw e (rw lf (omega arith), blank, h)
]
