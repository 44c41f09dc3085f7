-- ===== src/Sklaffrc/Steps.antt =====
-- How the loop of read_sklaffrc in user.c goes through what write_sklaffrc writes.
use mathlib.Core.List.{reverse_aux, reverse, reverse-reverse}
use sklaffkom.Base.{
  ℕ, refl, [], ◌∷◌, ◌++◌, true, false, some, none, Bool-cases, inl, inr, Bytes, Bool, ◌==◌, ◌≡◌,
  reverse, ◌&&◌, ◌||◌, Option, drop, length, ltb, lt→ltb, ◌≤◌, ◌∙◌, arith, ◌<◌,
}
use sklaffkom.Sklaffrc.{
  Heading, adress, note, numlines, heading_name, same_heading, field_size, Settings, set_field,
  store_entry, ScanState, opened, after_line, in_text, Scan, close_heading, end_entry, before_mark,
  new_heading, at_mark, scan_round, scan_file, start_scan, with_rc,
}

-- whether a new heading starts in a text, or the file ends in it, where `l2` and `l` come before it
abbrev pub marks : ℕ → ℕ → Bytes → Bool
marks l2 l [] = false
marks l2 l (c ∷ s) = (c == b'[' && (l == b'!' && (l2 == b'\n' || l2 == 0))) || c == 0 || marks l c s

-- the scan, in the text of a heading
abbrev pub scanning : ScanState → Heading → Bytes → ℕ → ℕ → Settings → Scan
scanning state h since l2 l rc = record {
  state = state;
  heading = some h;
  since = since;
  lastchar = l;
  lasttwo = l2;
  rc = rc;
}

abbrev pub last_byte : ℕ → Bytes → ℕ
last_byte l [] = l
last_byte l (c ∷ s) = last_byte c s

-- a byte of a text at which no heading starts
text_byte :
    (h : Heading) (since : Bytes) (l2 l c : ℕ) (rc : Settings) (s : Bytes)
    → ((c == b'[' && (l == b'!' && (l2 == b'\n' || l2 == 0))) || c == 0) ≡ false
    → scan_file (c ∷ s) (scanning in_text h since l2 l rc)
      ≡ scan_file s (scanning in_text h (c ∷ since) l c rc)
unfolding scan_file scan_round before_mark at_mark
text_byte h since l2 l c rc s e = rw e refl

pub scan_file-text :
    (t : Bytes) (h : Heading) (since : Bytes) (l2 l : ℕ) (rc : Settings) (rest : Bytes)
    → marks l2 l t ≡ false
    → scan_file (t ++ b'\n' ∷ rest) (scanning in_text h since l2 l rc)
      ≡ scan_file rest (scanning in_text h (b'\n' ∷ reverse_aux t since) (last_byte l t) b'\n' rc)
scan_file-text [] h since l2 l rc rest e = text_byte h since l2 l b'\n' rc rest refl
scan_file-text (c ∷ t) h since l2 l rc rest e =
    elim (Bool-cases ((c == b'[' && (l == b'!' && (l2 == b'\n' || l2 == 0))) || c == 0)) [
      | inl f ↦ let clash : true ≡ false = rw f at e in cc
      | inr f ↦
          text_byte h since l2 l c rc (t ++ b'\n' ∷ rest) f
          ∙ scan_file-text t h (c ∷ since) l c rc rest (rw f at e)
    ]

-- the name of a heading, behind its `[`
pub scan_file-name :
    (h : Heading) (k : Option Heading) (since : Bytes) (rc : Settings) (rest : Bytes)
    → scan_file (heading_name h ++ b']' ∷ b'\n' ∷ rest) (record {
      state = opened;
      heading = k;
      since = since;
      lastchar = b'[';
      lasttwo = b'!';
      rc = rc;
    })
      ≡ scan_file rest
          (scanning after_line h (b'\n' ∷ b']' ∷ reverse (heading_name h)) b']' b'\n' rc)
unfolding scan_file scan_round before_mark close_heading at_mark new_heading
scan_file-name adress k since rc rest = refl
scan_file-name h k since rc rest = refl

-- the first byte of a text takes the scan into it
text_starts :
    (h : Heading) (c : ℕ) (s since : Bytes) (l2 l : ℕ) (rc : Settings)
    → scan_file (c ∷ s) (scanning after_line h since l2 l rc)
      ≡ scan_file (c ∷ s) (scanning in_text h [] l2 l rc)
unfolding scan_file scan_round before_mark
text_starts h c s since l2 l rc = refl

-- where a scan is behind the text `t` of the heading `h` and its line feed
abbrev pub behind_text : Heading → Bytes → Settings → Scan
behind_text h t rc = scanning in_text h (b'\n' ∷ reverse t) (last_byte b'\n' t) b'\n' rc

-- an entry, behind its `[`
pub scan_file-entry :
    (h : Heading) (k : Option Heading) (since : Bytes) (rc : Settings) (c : ℕ) (t rest : Bytes)
    → marks b']' b'\n' (c ∷ t) ≡ false
    → scan_file (heading_name h ++ b']' ∷ b'\n' ∷ ((c ∷ t) ++ b'\n' ∷ rest)) (record {
      state = opened;
      heading = k;
      since = since;
      lastchar = b'[';
      lasttwo = b'!';
      rc = rc;
    })
      ≡ scan_file rest (behind_text h (c ∷ t) rc)
scan_file-entry h k since rc c t rest e =
    scan_file-name h k since rc ((c ∷ t) ++ b'\n' ∷ rest)
    ∙ text_starts h c (t ++ b'\n' ∷ rest) (b'\n' ∷ b']' ∷ reverse (heading_name h)) b']' b'\n' rc
    ∙ scan_file-text (c ∷ t) h [] b']' b'\n' rc rest e

-- a field that takes the text
pub record FitsField (h : Heading) (t : Bytes) : Type 0 where
  pub is_field : same_heading h numlines ≡ false
  pub short : length t < field_size h
  pub unmarked : marks b']' b'\n' t ≡ false

abbrev pub put_field : Heading → Bytes → Settings → Settings
put_field h t rc = record { field = set_field h t rc.field; lines = rc.lines }

size_bound : (h : Heading) → field_size h ≤ 4096
size_bound note = omega arith
size_bound h = omega arith

store_entry-fits :
    (h : Heading) (t : Bytes) (rc : Settings)
    → FitsField h t
    → store_entry h t rc ≡ some (put_field h t rc)
unfolding store_entry
store_entry-fits h t rc fits =
    let room : ltb (length t) (field_size h) ≡ true = lt→ltb (length t) (field_size h) fits.short in
    rw (fits.is_field, room) refl

-- the end of an entry of which `n` bytes too many were read
end_entry-fits :
    (n : ℕ) (h : Heading) (t : Bytes) (st : Scan)
    → reverse (drop n st.since) ≡ t
    → FitsField h t
    → end_entry n (some h) st ≡ with_rc st (put_field h t st.rc)
unfolding end_entry
end_entry-fits n h t st e fits =
    let room : ltb (length t) 4096 ≡ true =
      lt→ltb (length t) 4096 (omega (arith, fits.short, size_bound h)) in
    rw (e, room, store_entry-fits h t st.rc fits) refl

-- the end of the file behind a text
pub scan_file-end :
    (h : Heading) (t : Bytes) (rc : Settings)
    → FitsField h t
    → scan_file [] (behind_text h t rc) ≡ some (put_field h t rc)
unfolding scan_file scan_round before_mark at_mark new_heading
scan_file-end h t rc fits =
    rw (end_entry-fits 1 h t (behind_text h t rc) (reverse-reverse t) fits) refl

-- the next heading behind a text
pub scan_file-next :
    (h : Heading) (t : Bytes) (rc : Settings) (rest : Bytes)
    → FitsField h t
    → scan_file (b'!' ∷ b'[' ∷ rest) (behind_text h t rc)
      ≡ scan_file rest (record {
        state = opened;
        heading = some h;
        since = b'[' ∷ b'!' ∷ b'\n' ∷ reverse t;
        lastchar = b'[';
        lasttwo = b'!';
        rc = put_field h t rc;
      })
unfolding scan_file scan_round before_mark at_mark new_heading
scan_file-next h t rc rest fits =
    rw
      (end_entry-fits 2 h t (scanning in_text h (b'!' ∷ b'\n' ∷ reverse t) b'\n' b'!' rc)
        (reverse-reverse t) fits)
      refl

-- the first heading of a file
pub scan_file-first :
    (rc : Settings) (rest : Bytes)
    → scan_file (b'!' ∷ b'[' ∷ rest) (start_scan none rc)
      ≡ scan_file rest (record {
        state = opened;
        heading = none;
        since = b'[' ∷ b'!' ∷ [];
        lastchar = b'[';
        lasttwo = b'!';
        rc = rc;
      })
unfolding scan_file scan_round before_mark at_mark new_heading
scan_file-first rc rest = refl
