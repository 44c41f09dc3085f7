-- ===== src/Mail/Cleanup.antt =====
-- mailbody.c: cleanup_text, which cleans the links of a text and takes out spare white space.
pub mod Rounds
pub mod Neat
pub mod Start
pub mod Shape
use sklaffkom.Base.{
  ℕ, zero, suc, ◌+◌, Bool, true, false, not, ◌&&◌, ◌||◌, [], ◌∷◌, ◌++◌, Bytes, length, drop,
  reverse, ltb, ◌==◌, if◌then◌else◌,
}
use sklaffkom.Libc.{isspace}
use sklaffkom.Mail.{drop_back}
use sklaffkom.Mail.Headers.{is_blank, skip_blanks}
use sklaffkom.Mail.Urls.{is_url_start, url_char, clean_url}
use sklaffkom.Libc.{skip_spaces}

-- `out` is the text written so far from its last byte to its first. `col` counts bytes on the line;
-- the source asks only whether it is 0.
pub record Cleaner : Type 0 where
  pub out : Bytes
  pub col : ℕ
  pub blank_run : ℕ
  pub line_has_text : Bool
  pub urls_cleaned : ℕ
  pub blank_lines_removed : ℕ

-- the bytes that a link does not end in
abbrev pub ends_sentence : ℕ → Bool
ends_sentence c = c == b')' || c == b'.' || c == b',' || c == b';'

unfoldable pub url_chars : Bytes → Bytes
url_chars [] = []
url_chars (c ∷ s) = if url_char c then c ∷ url_chars s else []

-- the link at the start of `s`
unfoldable pub url_at : Bytes → Bytes
unfolding url_chars drop_back
url_at s = drop_back (λ c. ends_sentence c) (url_chars s)

abbrev pub put_url : Bytes × Bool → Cleaner → Cleaner
put_url (u, changed) st = record {
  out = reverse u ++ st.out;
  col = st.col + length u;
  blank_run = st.blank_run;
  line_has_text = true;
  urls_cleaned = if changed then suc st.urls_cleaned else st.urls_cleaned;
  blank_lines_removed = st.blank_lines_removed;
}

abbrev pub end_line : Bytes → ℕ → Cleaner → Cleaner
end_line out run st = record {
  out = b'\n' ∷ out;
  col = 0;
  blank_run = run;
  line_has_text = false;
  urls_cleaned = st.urls_cleaned;
  blank_lines_removed = st.blank_lines_removed;
}

abbrev pub remove_line : Bytes → Cleaner → Cleaner
remove_line out st = record {
  out = out;
  col = 0;
  blank_run = suc st.blank_run;
  line_has_text = st.line_has_text;
  urls_cleaned = st.urls_cleaned;
  blank_lines_removed = suc st.blank_lines_removed;
}

-- a line feed, behind which the blanks at the end of the line are gone
unfoldable pub put_newline : Cleaner → Cleaner
unfolding skip_blanks
put_newline st =
    let out = skip_blanks st.out in
    if st.line_has_text
    then end_line out 0 st
    else if ltb 2 (suc st.blank_run)
    then remove_line out st
    else end_line out (suc st.blank_run) st

abbrev pub put_byte : ℕ → Cleaner → Cleaner
put_byte c st = record {
  out = c ∷ st.out;
  col = suc st.col;
  blank_run = st.blank_run;
  line_has_text = st.line_has_text || not (isspace c);
  urls_cleaned = st.urls_cleaned;
  blank_lines_removed = st.blank_lines_removed;
}

-- the rounds for one byte
unfoldable pub take_byte : ℕ → Cleaner → Cleaner
unfolding put_newline
take_byte c st =
    if c == b'\r'
    then st
    else if c == b'\n'
    then put_newline st
    else if is_blank c && st.col == 0
    then st
    else put_byte c st

-- the loop over the text, whose next byte is `c`: the length of the text is enough rounds
unfoldable pub clean_rounds : ℕ → Bytes → Cleaner → Cleaner
unfolding url_at clean_url take_byte
clean_rounds zero s st = st
clean_rounds (suc f) [] st = st
clean_rounds (suc f) (c ∷ s) st =
    let link =
      clean_rounds f (drop (length (url_at (c ∷ s))) (c ∷ s))
        (put_url (clean_url (url_at (c ∷ s))) st) in
    let byte = clean_rounds f s (take_byte c st) in if is_url_start (c ∷ s) then link else byte

abbrev pub fresh_cleaner : Cleaner
fresh_cleaner = record {
  out = [];
  col = 0;
  blank_run = 0;
  line_has_text = false;
  urls_cleaned = 0;
  blank_lines_removed = 0;
}

-- the text; urls_cleaned and blank_lines_removed are only printed
unfoldable pub cleanup_text : Bytes → Bytes
unfolding clean_rounds skip_spaces
cleanup_text s = reverse (b'\n' ∷ skip_spaces (clean_rounds (length s) s fresh_cleaner).out)
