-- ===== src/Tests/Mail.antt =====
-- Mail bodies, of mailbody.c.
use sklaffkom.Libc.Decimal.{Lacks}
use sklaffkom.Base.{
  ℕ, ◌≡◌, refl, true, false, none, some, [], ◌∷◌, ◌++◌, Bytes, arith, codes, List, length, Bool,
  not, ◌&&◌, ◌==◌, inl, inr, Bool-cases, ◌≢◌, ◌+◌, ◌≤◌,
}
use sklaffkom.Libc.{before, strstr, skip_spaces, strchr_next, isspace}
use sklaffkom.Mail.{ci_strstr, trim, drop_back, contains}
use sklaffkom.Mail.Transfer.{decode_qp, decode_base64, latin1_to_utf8, is_latin1}
use sklaffkom.Mail.Transfer.Base64.{decode_base64-encode_base64}
use sklaffkom.Mail.Transfer.Quoted.{Quoted, decode_qp-Quoted}
use sklaffkom.Mail.Transfer.Latin.{utf8_points, utf8_points-latin1_to_utf8}
use sklaffkom.Mail.Transfer.Room.{decoders-room}
use sklaffkom.Mail.Urls.{is_tracking_param, is_tracked, clean_url, has}
use sklaffkom.Mail.Urls.Spec.{clean_link, clean_url-clean_link}
use sklaffkom.Mail.Cleanup.{cleanup_text, clean_rounds, take_byte, put_newline}
use sklaffkom.Mail.Cleanup.Shape.{cleanup_text-shape}
use sklaffkom.Mail.Headers.{
  skip_blanks, header_value, param_value, parse_part_headers, is_blank, trimmed_value, ctype_of,
  type_of,
}
use sklaffkom.Mail.Parts.{
  done, past_end, extract_best_part, boundary_of, is_htmlish, looks_like_html,
}
use sklaffkom.Mail.Parts.Printed.{Leaf, part_of}
use sklaffkom.Mail.Parts.Chosen.{preferred}
use sklaffkom.Mail.Parts.Multipart.{
  IsMultipart, message, closed, extract_best_part-message, extract_best_part-unclosed,
}
use sklaffkom.Mail.Render.{mailbody_render_utf8_dup, with_newline}
use sklaffkom.Mail.Render.Text.{IsBase64Header, mailbody_render_utf8_dup-base64}

-- `hej!` in two lines of base64
decoded_lines : decode_base64 (codes "aGVq\r\nIQ==") ≡ codes "hej!"
unfolding decode_base64
decoded_lines = decode_base64-encode_base64 (codes "aGVq\r\nIQ==") (codes "hej!") (omega arith) refl

-- `=` written as `=3D`, a soft line break of CR and LF, and one of LF
text-Quoted : Quoted (codes "a=b") (codes "a=3D=\r\n=\nb")
text-Quoted =
    Quoted.literal b'a' (λ e. omega (arith, e))
      (Quoted.escaped b'3' b'D' 3 13 refl refl (
        Quoted.soft_crlf
          (Quoted.soft_lf b'b' (Quoted.literal b'b' (λ e. omega (arith, e)) Quoted.nothing))))

decode_qp-Quoted_example : decode_qp (codes "a=3D=\r\n=\nb") ≡ codes "a=b"
decode_qp-Quoted_example = decode_qp-Quoted text-Quoted

utf8_points-latin1_to_utf8_example :
    (utf8_points (latin1_to_utf8 (b'p' ∷ 229 ∷ [])) ≡ some (b'p' ∷ 229 ∷ []))
    × (length (latin1_to_utf8 (b'p' ∷ 229 ∷ [])) ≤ 4)
utf8_points-latin1_to_utf8_example = utf8_points-latin1_to_utf8 (b'p' ∷ 229 ∷ []) (omega arith)

abbrev tracked_link : Bytes
tracked_link = codes "http://a.se/?utm_id=1&p=2&ecid=3#top"

clean_url-clean_link_example : clean_url tracked_link ≡ (codes "http://a.se/?p=2#top", true)
unfolding clean_link strchr_next is_tracked is_tracking_param before has
clean_url-clean_link_example = clean_url-clean_link tracked_link

abbrev spaced : Bytes
spaced = codes "a \n\n\n\n\nb\n\n"

-- a run of the cleaner: the blank and two of the blank lines are gone
cleaned_text : cleanup_text spaced ≡ codes "a\n\n\nb\n"
unfolding cleanup_text clean_rounds take_byte put_newline skip_blanks skip_spaces
cleaned_text = refl

-- the byte is nowhere in the string
abbrev lacks : ℕ → Bytes → Bool
lacks c [] = true
lacks c (x ∷ s) = not (x == c) && lacks c s

lacks-Lacks : (c : ℕ) (s : Bytes) → lacks c s ≡ true → Lacks c s
lacks-Lacks c [] h = tt
lacks-Lacks c (x ∷ s) h = elim (Bool-cases (x == c)) [
  | inl e ↦ let clash : false ≡ true = rw e at h in cc
  | inr e ↦ (e, lacks-Lacks c s (rw e at h))
]

-- a message of two parts
abbrev plain_leaf : Leaf
plain_leaf = record { header = codes "Content-Type: text/plain"; text = codes "hej" }

abbrev html_leaf : Leaf
html_leaf = record { header = codes "Content-Type: text/html"; text = codes "<p>hej</p>" }

abbrev top_header : Bytes
top_header = codes "Content-Type: multipart/alternative; boundary=b1"

abbrev leaves : List Leaf
leaves = html_leaf ∷ plain_leaf ∷ []

leaves-IsMultipart :
    IsMultipart top_header (codes "b1") (codes "hi") leaves (closed (codes "b1") (codes "\n"))
unfolding strstr ci_strstr contains parse_part_headers header_value param_value boundary_of
    trimmed_value ctype_of type_of trim before skip_spaces drop_back
leaves-IsMultipart = record {
  head = refl;
  typed = refl;
  bounded = refl;
  short = omega arith;
  on_line = lacks-Lacks b'\n' (codes "b1") refl;
  fore = refl;
  parts = (
    record { header = refl; text = refl; flat = refl },
    (record { header = refl; text = refl; flat = refl }, tt),
  );
  feeds =
      lacks-Lacks b'\r'
        (message top_header (codes "b1") (codes "hi") leaves (closed (codes "b1") (codes "\n")))
        refl;
}

extract_best_part-message_example :
    extract_best_part
      (message top_header (codes "b1") (codes "hi") leaves (closed (codes "b1") (codes "\n")))
    ≡ done (preferred (part_of html_leaf ∷ part_of plain_leaf ∷ []))
extract_best_part-message_example =
    extract_best_part-message top_header (codes "b1") (codes "hi") leaves (codes "\n")
      leaves-IsMultipart

unclosed-IsMultipart : IsMultipart top_header (codes "b1") (codes "hi") leaves []
unfolding strstr ci_strstr contains parse_part_headers header_value param_value boundary_of
    trimmed_value ctype_of type_of trim before skip_spaces drop_back
unclosed-IsMultipart = record {
  head = refl;
  typed = refl;
  bounded = refl;
  short = omega arith;
  on_line = lacks-Lacks b'\n' (codes "b1") refl;
  fore = refl;
  parts = (
    record { header = refl; text = refl; flat = refl },
    (record { header = refl; text = refl; flat = refl }, tt),
  );
  feeds = lacks-Lacks b'\r' (message top_header (codes "b1") (codes "hi") leaves []) refl;
}

extract_best_part-unclosed_example :
    extract_best_part (message top_header (codes "b1") (codes "hi") leaves []) ≡ past_end
extract_best_part-unclosed_example =
    extract_best_part-unclosed top_header (codes "b1") (codes "hi") html_leaf (plain_leaf ∷ [])
      unclosed-IsMultipart

-- a message in base64
abbrev base64_header : Bytes
base64_header = codes "Content-Transfer-Encoding: BASE64"

base64-IsBase64Header : IsBase64Header base64_header
unfolding strstr ci_strstr contains parse_part_headers header_value param_value trimmed_value
    ctype_of type_of is_latin1 trim before
base64-IsBase64Header = record {
  lines = refl;
  flat = refl;
  not_quoted = refl;
  encoded = refl;
  charset = refl;
}

mailbody_render_utf8_dup-base64_example :
    mailbody_render_utf8_dup
      (λ s. none)
      false
      (codes "Content-Transfer-Encoding: BASE64\n\naGVq\nIQ==")
    ≡ done (some (codes "hej!\n"))
unfolding with_newline ctype_of trimmed_value is_htmlish looks_like_html contains ci_strstr before
    parse_part_headers header_value param_value
mailbody_render_utf8_dup-base64_example =
    mailbody_render_utf8_dup-base64 (λ s. none) false base64_header (codes "aGVq\nIQ==")
      (codes "hej!") base64-IsBase64Header
      (lacks-Lacks b'\r' (codes "Content-Transfer-Encoding: BASE64\n\naGVq\nIQ==") refl)
      (omega arith) refl

decoders-room_example :
    (length (decode_qp (codes "=41=")) + 1 ≤ 5)
    × (length (decode_base64 (codes "=41=")) + 1 ≤ 7)
    × (length (latin1_to_utf8 (codes "=41=")) + 1 ≤ 9)
decoders-room_example = decoders-room (codes "=41=")

cleanup_text-shape_example :
    ((t : Bytes) × (cleanup_text spaced ≡ t ++ b'\n' ∷ [])
      × ((a : Bytes) (c : ℕ) → t ≡ a ++ c ∷ [] → isspace c ≡ false))
    × ((a b : Bytes) → b'\n' ∷ cleanup_text spaced ≢ a ++ (codes "\n\n\n\n" ++ b))
    × ((a b : Bytes) (c : ℕ)
        → is_blank c ≡ true
        → cleanup_text spaced ≢ a ++ ((c ∷ b'\n' ∷ []) ++ b))
cleanup_text-shape_example = cleanup_text-shape spaced
