-- ===== src/Mail/Parts/Multipart.antt =====
-- extract_best_part of mailbody.c on the messages of Printed.
use sklaffkom.Base.{
  refl, none, some, [], ◌∷◌, ◌++◌, Bytes, List, ◌≡◌, Option, ℕ, length, All, arith, length-append,
  ◌-◌, ◌+◌, suc, map, ◌∙◌, take-all, ◌≤◌, true, ap,
}
use sklaffkom.Libc.{strstr}
use sklaffkom.Libc.Decimal.{Lacks}
use sklaffkom.Mail.Headers.{Part, parse_part_headers}
use sklaffkom.Mail.Parts.{
  Run, done, find_body_start, is_multipart_type, parts_loop, past_end, best_of, parts_of, multipart,
  marker_of, boundary_of, nothing_kept, chosen, ◌>>=◌, extract_best_part, extract_best_part_rec,
  next_marker,
}
use sklaffkom.Mail.Parts.Printed.{
  Leaf, Fits, headed, printed, part_of, IsHeader, marker, EndsWith, find_body_start-headed,
  copy_range-headed, EndsWith-marker,
}
use sklaffkom.Mail.Parts.Search.{strstr-break, Lacks-suffix, strstr-here}
use sklaffkom.Mail.Parts.Chosen.{keep_parts, preferred, chosen-keep_parts}
use sklaffkom.Mail.Parts.Loop.{parts_loop-printed, parts_loop-closed, parts_loop-open}

-- a message in parts: `tail` stands behind the last part
abbrev pub message : Bytes → Bytes → Bytes → List Leaf → Bytes → Bytes
message header boundary preamble ls tail =
    headed header (preamble ++ b'\n' ∷ printed (marker boundary) ls tail)

pub record IsMultipart (header boundary preamble : Bytes) (ls : List Leaf) (tail : Bytes)
    : Type 0 where
  pub head : IsHeader header
  pub typed : is_multipart_type (parse_part_headers (header ++ b'\n' ∷ b'\n' ∷ [])).ctype ≡ true
  pub bounded : boundary_of (header ++ b'\n' ∷ b'\n' ∷ []) ≡ some boundary
  pub short : length boundary ≤ 509
  pub on_line : Lacks b'\n' boundary
  pub fore : strstr preamble (marker boundary) ≡ none
  pub parts : All (Fits (marker boundary)) ls
  pub feeds : Lacks b'\r' (message header boundary preamble ls tail)

length-printed :
    (m : Bytes) (ls : List Leaf) (tail : Bytes) → length ls ≤ length (printed m ls tail)
length-printed m [] tail = omega arith
length-printed m (l ∷ ls) tail = omega (
  arith,
  length-append m (b'\n' ∷ headed l.header (l.text ++ b'\n' ∷ printed m ls tail)),
  length-append l.header (b'\n' ∷ b'\n' ∷ (l.text ++ b'\n' ∷ printed m ls tail)),
  length-append l.text (b'\n' ∷ printed m ls tail),
  length-printed m ls tail,
)

module _ (header boundary preamble : Bytes) (ls : List Leaf) (tail : Bytes)
    (is : IsMultipart header boundary preamble ls tail) where
  -- the loop starts at the first marker and comes to the tail with fuel left
  extract-tail :
      (inner : Bytes → Run (Option Part))
      → strstr (printed (marker boundary) ls tail) (marker boundary)
        ≡ some (printed (marker boundary) ls tail)
      → EndsWith boundary tail
      → (k : ℕ) × (best_of inner
            (message header boundary preamble ls tail)
            (find_body_start (message header boundary preamble ls tail))
          ≡ (parts_loop inner
                (marker boundary)
                (suc k)
                (some tail)
                (keep_parts (map part_of ls) nothing_kept)
              >>= (λ kept. done (chosen kept))))
  unfolding best_of parts_of multipart
  extract-tail inner starts ends =
      let m = marker boundary in
      let all = printed m ls tail in
      let body = preamble ++ b'\n' ∷ all in
      let k = length body - length ls in
      let whole : marker_of boundary ≡ m = take-all 511 m (omega (arith, is.short)) in
      let found : strstr body m ≡ some all =
        strstr-break b'\n' b'-' (b'-' ∷ boundary) preamble all (refl, (refl, is.on_line)) is.fore
        ∙ starts in
      let cr_body = (Lacks-suffix b'\r' header (b'\n' ∷ b'\n' ∷ body) is.feeds).1.1 in
      let cr = (Lacks-suffix b'\r' preamble (b'\n' ∷ all) cr_body).1 in
      let fuel : suc (length body) ≡ length ls + suc k =
        omega (arith, length-append preamble (b'\n' ∷ all), length-printed m ls tail) in
      (
        k,
        rw
            (
              find_body_start-headed header body is.head is.feeds,
              copy_range-headed header body,
              is.bounded,
              is.typed,
              whole,
              found,
              parts_loop-printed inner boundary ls (suc (length body)) (suc k) tail nothing_kept
                  is.on_line is.parts ends cr fuel,
            )
            refl,
      )

-- the closing marker, and what stands behind it
abbrev pub closed : Bytes → Bytes → Bytes
closed boundary rest = marker boundary ++ b'-' ∷ b'-' ∷ rest

printed_starts :
    (boundary : Bytes) (ls : List Leaf) (rest : Bytes)
    → strstr (printed (marker boundary) ls (closed boundary rest)) (marker boundary)
      ≡ some (printed (marker boundary) ls (closed boundary rest))
printed_starts boundary [] rest = strstr-here b'-' (b'-' ∷ boundary) (b'-' ∷ b'-' ∷ rest)
printed_starts boundary (l ∷ ls) rest = strstr-here b'-' (b'-' ∷ boundary) _

-- Of a multipart message with LF line ends, whose parts are not multipart themselves, extract_best_part
-- gives the first part that is plain text and does not look like HTML, or else the first that is or
-- looks like HTML, decoded by its own header, and -1 where there is neither. The boundary fits into
-- the marker and no marker stands in the preamble or in a part; after the closing marker anything may
-- follow.
pub extract_best_part-message :
    (header boundary preamble : Bytes) (ls : List Leaf) (rest : Bytes)
    → IsMultipart header boundary preamble ls (closed boundary rest)
    → extract_best_part (message header boundary preamble ls (closed boundary rest))
      ≡ done (preferred (map part_of ls))
unfolding extract_best_part extract_best_part_rec
extract_best_part-message header boundary preamble ls rest is =
    let tail = closed boundary rest in
    let msg = message header boundary preamble ls tail in
    let (k, e) =
      extract-tail header boundary preamble ls tail is (extract_best_part_rec (length msg))
        (printed_starts boundary ls rest) (EndsWith-marker boundary (b'-' ∷ b'-' ∷ rest)) in
    e
    ∙ rw
        (parts_loop-closed (extract_best_part_rec (length msg)) boundary k rest
          (keep_parts (map part_of ls) nothing_kept))
        (ap done (chosen-keep_parts (map part_of ls)))

-- On a multipart message whose closing marker is missing, but which is as above otherwise and has a
-- part, extract_best_part reads behind the end of the message: where no further marker is found, the
-- loop goes on at the terminating NUL and steps over a marker that is not there.
pub extract_best_part-unclosed :
    (header boundary preamble : Bytes) (l : Leaf) (ls : List Leaf)
    → IsMultipart header boundary preamble (l ∷ ls) []
    → extract_best_part (message header boundary preamble (l ∷ ls) []) ≡ past_end
unfolding extract_best_part extract_best_part_rec
extract_best_part-unclosed header boundary preamble l ls is =
    let msg = message header boundary preamble (l ∷ ls) [] in
    let (k, e) =
      extract-tail header boundary preamble (l ∷ ls) [] is (extract_best_part_rec (length msg))
        (strstr-here b'-' (b'-' ∷ boundary) _) (unfold next_marker strstr in refl) in
    e
    ∙ rw
        (parts_loop-open (extract_best_part_rec (length msg)) boundary k
          (keep_parts (map part_of (l ∷ ls)) nothing_kept))
        refl
