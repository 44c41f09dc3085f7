-- ===== src/Mail/Cleanup/Neat.antt =====
-- What every round of cleanup_text in mailbody.c keeps: how the text written so far may end.
use mathlib.Core.List.{reverse-cons}
use mathlib.Core.Path.{subst}
use sklaffkom.Base.{
  ℕ, zero, suc, refl, inl, inr, [], ◌∷◌, true, false, Bool-cases, ◌≤◌, ◌==◌, Bool, Bytes,
  if◌then◌else◌, arith, ◌≡◌, ◌&&◌, ltb, sym, All-reverse, reverse, ◌++◌, All, ◌∙◌, length, drop, ap,
}
use sklaffkom.Libc.{isspace}
use sklaffkom.Mail.Headers.{is_blank, skip_blanks, starts_blank}
use sklaffkom.Mail.Urls.{is_url_start, clean_url}
use sklaffkom.Mail.Urls.Visible.{Visible, clean_url-Visible, clean_url-cons}
use sklaffkom.Mail.Cleanup.{
  Cleaner, put_url, put_newline, put_byte, take_byte, end_line, remove_line, clean_rounds, url_at,
}
use sklaffkom.Mail.Cleanup.Rounds.{url_at-cons, url_at-Visible, clean_rounds-step, clean_rounds-end}

-- how many line feeds a text starts with
abbrev lf_run : Bytes → ℕ
lf_run [] = 0
lf_run (c ∷ s) = if c == b'\n' then suc (lf_run s) else 0

-- The text from its last byte to its first: no four line feeds in a row, no blank before one.
abbrev pub Tidy : Bytes → Type 0
Tidy [] = Unit
Tidy (c ∷ s) = (lf_run (c ∷ s) ≤ 3) × ((c == b'\n' && starts_blank s) ≡ false) × Tidy s

-- how many line feeds may end the text, the blanks behind them aside
abbrev allowed : ℕ → Bool → ℕ
allowed run true = 0
allowed run false = if ltb run 2 then suc run else 3

pub record Neat (st : Cleaner) : Type 0 where
  pub tidy : Tidy st.out
  pub feeds : lf_run (skip_blanks st.out) ≤ allowed st.blank_run st.line_has_text

Tidy-skip_blanks : (s : Bytes) → Tidy s → Tidy (skip_blanks s)
unfolding skip_blanks
Tidy-skip_blanks [] h = tt
Tidy-skip_blanks (c ∷ s) h = elim (Bool-cases (is_blank c)) [
  | inl e ↦ rw e (Tidy-skip_blanks s h.2)
  | inr e ↦ rw e h
]

starts_blank-skip_blanks : (s : Bytes) → starts_blank (skip_blanks s) ≡ false
unfolding skip_blanks
starts_blank-skip_blanks [] = refl
starts_blank-skip_blanks (c ∷ s) = elim (Bool-cases (is_blank c)) [
  | inl e ↦ rw e (starts_blank-skip_blanks s)
  | inr e ↦ rw e e
]

skip_blanks_idem : (s : Bytes) → skip_blanks (skip_blanks s) ≡ skip_blanks s
unfolding skip_blanks
skip_blanks_idem [] = refl
skip_blanks_idem (c ∷ s) = elim (Bool-cases (is_blank c)) [
  | inl e ↦ rw e (skip_blanks_idem s)
  | inr e ↦ rw e (rw e refl)
]

Tidy-newline : (s : Bytes) → Tidy s → lf_run (skip_blanks s) ≤ 2 → Tidy (b'\n' ∷ skip_blanks s)
Tidy-newline s h le = (omega arith, starts_blank-skip_blanks s, Tidy-skip_blanks s h)

end_line-Neat :
    (st : Cleaner) (run : ℕ)
    → Tidy st.out
    → lf_run (skip_blanks st.out) ≤ run
    → run ≤ 2
    → Neat (end_line (skip_blanks st.out) run st)
unfolding skip_blanks
end_line-Neat st run h le two = record {
  tidy = Tidy-newline st.out h (omega (arith, le));
  feeds = ground (arith, le);
}

remove_line-Neat :
    (st : Cleaner)
    → st.line_has_text ≡ false
    → 2 ≤ st.blank_run
    → Neat st
    → Neat (remove_line (skip_blanks st.out) st)
remove_line-Neat st e two is =
    let feeds = is.feeds in
    record {
      tidy = Tidy-skip_blanks st.out is.tidy;
      feeds = rw (skip_blanks_idem st.out, e) (ground (arith, rw e at feeds));
    }

put_newline-removed :
    (st : Cleaner)
    → st.line_has_text ≡ false
    → ltb 2 (suc st.blank_run) ≡ true
    → put_newline st ≡ remove_line (skip_blanks st.out) st
unfolding put_newline
put_newline-removed st e f = rw (e, f) refl

put_newline-Neat : (st : Cleaner) → Neat st → Neat (put_newline st)
unfolding put_newline
put_newline-Neat st is =
    let feeds = is.feeds in
    elim (Bool-cases st.line_has_text) [
      | inl e ↦
          let le : lf_run (skip_blanks st.out) ≤ 0 = rw e at feeds in
          rw e (end_line-Neat st 0 is.tidy le (omega arith))
      | inr e ↦
          let le : lf_run (skip_blanks st.out) ≤ allowed st.blank_run false = rw e at feeds in
          elim (Bool-cases (ltb 2 (suc st.blank_run))) [
            | inl f ↦
                subst (λ x. Neat x) (sym (put_newline-removed st e f))
                  (remove_line-Neat st e (ground (arith, f)) is)
            | inr f ↦
                rw (e, f)
                  (end_line-Neat st (suc st.blank_run) is.tidy (ground (arith, le, f))
                    (ground (arith, f)))
          ]
    ]

put_byte-Neat : (c : ℕ) (st : Cleaner) → (c == b'\n') ≡ false → Neat st → Neat (put_byte c st)
unfolding skip_blanks
put_byte-Neat c st lf is =
    let feeds = is.feeds in
    record {
      tidy = (rw lf (omega arith), rw lf refl, is.tidy);
      feeds = elim (Bool-cases (is_blank c)) [
        | inl e ↦
            let space : isspace c ≡ true = ground arith in
            elim (Bool-cases st.line_has_text) [
              | inl t ↦ rw (e, space, t) (rw t at feeds)
              | inr t ↦ rw (e, space, t) (rw t at feeds)
            ]
        | inr e ↦ rw (e, lf) (omega arith)
      ];
    }

take_byte-Neat : (c : ℕ) (st : Cleaner) → Neat st → Neat (take_byte c st)
unfolding take_byte
take_byte-Neat c st is =
    let newline = put_newline-Neat st is in
    elim (Bool-cases (c == b'\r')) [
      | inl e ↦ rw e is
      | inr e ↦ elim (Bool-cases (c == b'\n')) [
        | inl f ↦ rw (e, f) newline
        | inr f ↦ elim (Bool-cases (is_blank c && st.col == 0)) [
          | inl g ↦ rw (e, f, g) is
          | inr g ↦ rw (e, f, g) (put_byte-Neat c st f is)
        ]
      ]
    ]

-- a row of visible bytes behind a text
Tidy-append : (w s : Bytes) → All Visible w → Tidy s → Tidy (w ++ s)
Tidy-append [] s h k = k
Tidy-append (c ∷ w) s (hc, hw) k =
    let lf : (c == b'\n') ≡ false = ground arith in
    (rw lf (omega arith), rw lf refl, Tidy-append w s hw k)

append-cons : (xs : Bytes) (a : ℕ) → (d : ℕ) × (w : Bytes) × (xs ++ a ∷ [] ≡ d ∷ w)
append-cons [] a = (a, [], refl)
append-cons (x ∷ xs) a = (x, xs ++ a ∷ [], refl)

-- the last byte of a link is no white space
put_url-feeds :
    (w s : Bytes) (d : ℕ) (v : Bytes)
    → w ≡ d ∷ v
    → All Visible w
    → lf_run (skip_blanks (w ++ s)) ≡ 0
unfolding skip_blanks
put_url-feeds w s d v e h =
    let (hd, hv) = subst (λ x. All Visible x) e h in
    let lf : (d == b'\n') ≡ false = ground arith in
    let blank : is_blank d ≡ false = ground arith in rw e (rw (blank, lf) refl)

put_url-Neat :
    (link : Bytes × Bool) (c : ℕ) (v : Bytes) (st : Cleaner)
    → link.0 ≡ c ∷ v
    → All Visible link.0
    → Neat st
    → Neat (put_url link st)
put_url-Neat (u, changed) c v st same h is =
    let vis = All-reverse (λ x. Visible x) u h in
    let (d, w, e) = append-cons (reverse v) c in
    let last : reverse u ≡ d ∷ w = ap reverse same ∙ reverse-cons c v ∙ e in
    record {
      tidy = Tidy-append (reverse u) st.out vis is.tidy;
      feeds = omega (arith, put_url-feeds (reverse u) st.out d w last vis);
    }

-- a round that takes a link
link_round-Neat :
    (c : ℕ) (s : Bytes) (st : Cleaner)
    → is_url_start (c ∷ s) ≡ true
    → Neat st
    → Neat (put_url (clean_url (url_at (c ∷ s))) st)
link_round-Neat c s st h is =
    let (u, e) = url_at-cons c s h in
    let (v, f) = clean_url-cons b'h' u refl in
    let vis = clean_url-Visible (url_at (c ∷ s)) (url_at-Visible (c ∷ s)) in
    let same : (clean_url (url_at (c ∷ s))).0 ≡ b'h' ∷ v = rw e f in
    put_url-Neat (clean_url (url_at (c ∷ s))) b'h' v st same vis is

pub clean_rounds-Neat : (f : ℕ) (s : Bytes) (st : Cleaner) → Neat st → Neat (clean_rounds f s st)
clean_rounds-Neat f [] st is = subst (λ x. Neat x) (sym (clean_rounds-end f st)) is
clean_rounds-Neat zero (c ∷ s) st is = unfold clean_rounds in is
clean_rounds-Neat (suc f) (c ∷ s) st is =
    let u = url_at (c ∷ s) in
    let link = put_url (clean_url u) st in
    elim (Bool-cases (is_url_start (c ∷ s))) [
      | inl e ↦
          rw (clean_rounds-step f c s st, e)
            (clean_rounds-Neat f (drop (length u) (c ∷ s)) link (link_round-Neat c s st e is))
      | inr e ↦
          rw (clean_rounds-step f c s st, e)
            (clean_rounds-Neat f s (take_byte c st) (take_byte-Neat c st is))
    ]
