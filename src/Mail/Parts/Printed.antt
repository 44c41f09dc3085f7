-- ===== src/Mail/Parts/Printed.antt =====
-- Multipart messages as mail programs write them: header lines, an empty line, a preamble, and parts of
-- one level between the markers; and what the searches of mailbody.c find in them.
use sklaffkom.Base.{
  refl, inl, inr, none, some, false, [], ◌∷◌, ◌++◌, Bytes, List, codes, ◌≡◌, Bool-cases,
  append_assoc, ◌==◌, ◌&&◌,
}
use sklaffkom.Libc.{strstr, is_prefix}
use sklaffkom.Libc.Decimal.{Lacks}
use sklaffkom.Mail.Headers.{Part, parse_part_headers}
use sklaffkom.Mail.Parts.{next_marker, copy_range, find_body_start, decoded_part, is_multipart_type}
use sklaffkom.Mail.Parts.Search.{strstr-here, strstr-break, strstr-Lacks, take-prefix}

-- a part: its header lines without the last line feed, and its text without the last one
pub record Leaf : Type 0 where
  pub header : Bytes
  pub text : Bytes

-- a header and the empty line
abbrev pub headed : Bytes → Bytes → Bytes
headed header body = header ++ b'\n' ∷ b'\n' ∷ body

-- the parts, each behind a marker, and `tail` behind the last
abbrev pub printed : Bytes → List Leaf → Bytes → Bytes
printed marker [] tail = tail
printed marker (l ∷ ls) tail =
    marker ++ b'\n' ∷ headed l.header (l.text ++ b'\n' ∷ printed marker ls tail)

-- the header has no empty line and does not end in one
abbrev pub IsHeader : Bytes → Type 0
IsHeader header = strstr (header ++ b'\n' ∷ []) (codes "\n\n") ≡ none

pub record Fits (marker : Bytes) (l : Leaf) : Type 0 where
  pub header : IsHeader l.header
  pub text : strstr l.text marker ≡ none
  pub flat : is_multipart_type (parse_part_headers (l.header ++ b'\n' ∷ b'\n' ∷ [])).ctype ≡ false

-- the part that the loop makes of it
abbrev pub part_of : Leaf → Part
part_of l =
    decoded_part (parse_part_headers (l.header ++ b'\n' ∷ b'\n' ∷ [])) (l.text ++ b'\n' ∷ [])

second_feed :
    (header body : Bytes)
    → is_prefix (b'\n' ∷ []) (header ++ b'\n' ∷ b'\n' ∷ body)
      ≡ is_prefix (b'\n' ∷ []) (header ++ b'\n' ∷ [])
second_feed [] body = refl
second_feed (y ∷ header) body = refl

empty_line :
    (header body : Bytes)
    → IsHeader header
    → strstr (header ++ b'\n' ∷ b'\n' ∷ body) (codes "\n\n") ≡ some (b'\n' ∷ b'\n' ∷ body)
unfolding strstr
empty_line [] body h = refl
empty_line (x ∷ header) body h =
    elim (Bool-cases (x == b'\n' && is_prefix (b'\n' ∷ []) (header ++ b'\n' ∷ []))) [
      | inl e ↦ let clash : some (x ∷ (header ++ b'\n' ∷ [])) ≡ none = rw e at h in cc
      | inr e ↦ rw (second_feed header body, e) (empty_line header body (rw e at h))
    ]

pub find_body_start-headed :
    (header body : Bytes)
    → IsHeader header
    → Lacks b'\r' (headed header body)
    → find_body_start (headed header body) ≡ some body
unfolding find_body_start
find_body_start-headed header body h cr =
    rw (strstr-Lacks b'\r' (codes "\n\r\n") (headed header body) cr, empty_line header body h) refl

copy_range-prefix : (s t : Bytes) → copy_range (s ++ t) t ≡ s
copy_range-prefix s t = take-prefix s t

pub copy_range-headed :
    (header body : Bytes) → copy_range (headed header body) body ≡ header ++ b'\n' ∷ b'\n' ∷ []
copy_range-headed header body = rw append_assoc at (take-prefix (header ++ b'\n' ∷ b'\n' ∷ []) body)

pub copy_range-text :
    (text next : Bytes) → copy_range (text ++ b'\n' ∷ next) next ≡ text ++ b'\n' ∷ []
copy_range-text text next = rw append_assoc at (take-prefix (text ++ b'\n' ∷ []) next)

module _ (boundary : Bytes) where
  abbrev pub marker : Bytes
  marker = b'-' ∷ b'-' ∷ boundary

  -- the text behind the last part: the next marker is where the loop goes on
  abbrev pub EndsWith : Bytes → Type 0
  EndsWith tail = next_marker tail marker ≡ tail

  pub EndsWith-marker : (s : Bytes) → EndsWith (marker ++ s)
  unfolding next_marker
  EndsWith-marker s = rw (strstr-here b'-' (b'-' ∷ boundary) s) refl

  pub EndsWith-printed :
      (ls : List Leaf) (tail : Bytes) → EndsWith tail → EndsWith (printed marker ls tail)
  EndsWith-printed [] tail h = h
  EndsWith-printed (l ∷ ls) tail h =
      EndsWith-marker (b'\n' ∷ headed l.header (l.text ++ b'\n' ∷ printed marker ls tail))

  pub next_marker-text :
      (text next : Bytes)
      → Lacks b'\n' boundary
      → strstr text marker ≡ none
      → EndsWith next
      → next_marker (text ++ b'\n' ∷ next) marker ≡ next
  unfolding next_marker
  next_marker-text text next lf h e =
      rw (strstr-break b'\n' b'-' (b'-' ∷ boundary) text next (refl, (refl, lf)) h) e
