-- ===== src/Mail/Parts.antt =====
-- mailbody.c: extract_best_part, which goes through the parts of a message, down into parts that have
-- parts, and keeps the first plain and the first HTML text. What `mb_verbose` prints is left out, and
-- the reason of the choice with it, which only that prints.
pub mod Rounds
pub mod Ends
pub mod Search
pub mod Chosen
pub mod Printed
pub mod Loop
pub mod Multipart
use sklaffkom.Base.{
  ℕ, zero, suc, ◌-◌, Bool, not, ◌&&◌, ◌||◌, Option, none, some, [], ◌∷◌, ◌++◌, Bytes, codes, length,
  take, drop, ltb, ◌==◌, if◌then◌else◌,
}
use sklaffkom.Libc.{before, strstr, is_prefix}
use sklaffkom.Mail.{contains, ci_equal_n}
use sklaffkom.Mail.Headers.{Part, header_value, param_value, parse_part_headers}
use sklaffkom.Mail.Transfer.{decode_body}

-- How a run ends: with a result; with a read behind the end of the message, which C leaves undefined;
-- `stuck` is no run of the program: the model ran out of fuel.
pub data Run {ℓ} (A : Type ℓ) : Type ℓ where
  done : A → Run A
  past_end stuck : Run A

infixl 5 ◌>>=◌
abbrev pub ◌>>=◌ {ℓ κ} : {A : Type ℓ} {B : Type κ} → Run A → (A → Run B) → Run B
done a >>= f = f a
past_end >>= f = past_end
stuck >>= f = stuck

-- a body may hold NUL; the string functions stop there
unfoldable pub looks_like_html : Bytes → Bool
unfolding contains before
looks_like_html body =
    let s = before body 0 in
    contains s (codes "<!doctype html")
    || contains s (codes "<html")
    || contains s (codes "<body")
    || contains s (codes "<table")
    || contains s (codes "<div")
    || (contains s (codes "<p") && contains s (codes "</p>"))

abbrev pub behind_break : Option Bytes → Option Bytes → Option Bytes
behind_break (some p) lf = some (drop 4 p)
behind_break none (some p) = some (drop 2 p)
behind_break none none = none

unfoldable pub find_body_start : Bytes → Option Bytes
unfolding strstr
find_body_start msg = behind_break (strstr msg (codes "\r\n\r\n")) (strstr msg (codes "\n\n"))

-- the bytes of `s` before its rest `t`
abbrev pub copy_range : Bytes → Bytes → Bytes
copy_range s t = take (length s - length t) s

-- ci_strstr finds the string at the very start
abbrev pub is_multipart_type : Bytes → Bool
is_multipart_type ctype = ci_equal_n ctype (codes "multipart/")

-- best_html and best_plain, where have_html and have_plain are set
pub record KeptParts : Type 0 where
  pub html : Option Part
  pub plain : Option Part

abbrev pub or_new : Option Part → Part → Option Part
or_new none p = some p
or_new (some q) p = some q

unfoldable pub is_htmlish : Part → Bool
unfolding contains looks_like_html
is_htmlish p = contains p.ctype (codes "text/html") || looks_like_html p.body

-- the same tests for a part and for the best part of a part
unfoldable pub keep_part : Part → KeptParts → KeptParts
unfolding is_htmlish contains
keep_part p kept =
    if is_htmlish p
    then record { html = or_new kept.html p; plain = kept.plain }
    else if contains p.ctype (codes "text/plain")
    then record { html = kept.html; plain = or_new kept.plain p }
    else kept

abbrev pub best_html : Option Part → Option Part → Option Part
best_html (some h) plain = some h
best_html none plain = plain

-- the choice behind the loop; `none` is the -1 of the source
unfoldable pub choose_part : Option Part → Option Part → Option Part
unfolding looks_like_html
choose_part html none = best_html html none
choose_part html (some p) = if not (looks_like_html p.body) then some p else best_html html (some p)

-- the decoded part
unfoldable pub decoded_part : Part → Bytes → Part
unfolding decode_body
decoded_part p body = record {
  ctype = p.ctype;
  charset = p.charset;
  cte = p.cte;
  body = decode_body body p.cte p.charset;
}

-- pos += n
abbrev pub skip_bytes : ℕ → Bytes → Run Bytes
skip_bytes n pos = if ltb (length pos) n then past_end else done (drop n pos)

abbrev pub skip_newline : Bytes → Bytes
skip_newline [] = []
skip_newline (c ∷ s) =
    if c == b'\r' && is_prefix (b'\n' ∷ []) s then drop 1 s else if c == b'\n' then s else c ∷ s

abbrev pub or_end : Option Bytes → Bytes
or_end none = []
or_end (some next) = next

-- strstr for the next marker, and the end of the string where there is none
unfoldable pub next_marker : Bytes → Bytes → Bytes
unfolding strstr
next_marker body marker = or_end (strstr body marker)

unfoldable pub keep_best : Option Part → KeptParts → KeptParts
unfolding keep_part
keep_best none kept = kept
keep_best (some p) kept = keep_part p kept

-- What a part adds to what is kept. `inner` is the recursive call, `start` stands behind the line of
-- the marker, `body` behind the header of the part, and `next` at the next marker.
unfoldable pub part_kept :
    (Bytes → Run (Option Part)) → Bytes → Bytes → Bytes → KeptParts → Run KeptParts
unfolding parse_part_headers keep_part decoded_part
part_kept inner start body next kept =
    let p = parse_part_headers (copy_range start body) in
    let nested = inner (copy_range start next) >>= (λ best. done (keep_best best kept)) in
    if is_multipart_type p.ctype
    then nested
    else done (keep_part (decoded_part p (copy_range body next)) kept)

abbrev pub go_on : Bytes → KeptParts → Run (KeptParts × Option Bytes)
go_on next kept = done (kept, some next)

-- A round behind the marker: the kept parts, and the next position, or `none` where the loop is left.
unfoldable pub part_round :
    (Bytes → Run (Option Part))
    → Bytes
    → Bytes
    → Option Bytes
    → KeptParts
    → Run (KeptParts × Option Bytes)
unfolding part_kept next_marker
part_round inner marker start none kept = done (kept, none)
part_round inner marker start (some body) kept =
    let next = next_marker body marker in part_kept inner start body next kept >>= go_on next

unfoldable pub behind_marker :
    (Bytes → Run (Option Part)) → Bytes → KeptParts → Bytes → Run (KeptParts × Option Bytes)
unfolding part_round find_body_start
behind_marker inner marker kept pos =
    let start = skip_newline pos in
    let taken = part_round inner marker start (find_body_start start) kept in
    if is_prefix (codes "--") pos then done (kept, none) else taken

-- The loop, with `pos` at a marker or at the end of the message. A round takes the marker at least.
unfoldable pub parts_loop :
    (Bytes → Run (Option Part)) → Bytes → ℕ → Option Bytes → KeptParts → Run KeptParts
unfolding behind_marker
parts_loop inner marker f none kept = done kept
parts_loop inner marker zero (some pos) kept = stuck
parts_loop inner marker (suc f) (some pos) kept = do
  rest ← skip_bytes (length marker) pos
  (kept', next) ← behind_marker inner marker kept rest
  parts_loop inner marker f next kept'

-- snprintf(marker, 512, "--%s", boundary)
abbrev pub marker_of : Bytes → Bytes
marker_of boundary = take 511 (codes "--" ++ boundary)

abbrev pub nothing_kept : KeptParts
nothing_kept = record { html = none; plain = none }

abbrev pub chosen : KeptParts → Option Part
chosen kept = choose_part kept.html kept.plain

-- the parts of a multipart message, whose boundary is known
unfoldable pub multipart : (Bytes → Run (Option Part)) → Bytes → Bytes → Run (Option Part)
unfolding parts_loop choose_part strstr
multipart inner body boundary =
    let marker = marker_of boundary in
    parts_loop inner marker (suc (length body)) (strstr body marker) nothing_kept
    >>= (λ kept. done (chosen kept))

-- the best part of a message whose header has this boundary, or none
unfoldable pub parts_of :
    (Bytes → Run (Option Part)) → Part → Bytes → Option Bytes → Run (Option Part)
unfolding decoded_part multipart
parts_of inner container body none = done (some (decoded_part container body))
parts_of inner container body (some boundary) =
    let parts = multipart inner body boundary in
    if is_multipart_type container.ctype then parts else done (some (decoded_part container body))

unfoldable pub boundary_of : Bytes → Option Bytes
unfolding header_value param_value
boundary_of headers = param_value (header_value headers (codes "Content-Type")) (codes "boundary")

-- the message `msg`, whose body starts at `body`; `none` in the result is the -1 of the source
unfoldable pub best_of : (Bytes → Run (Option Part)) → Bytes → Option Bytes → Run (Option Part)
unfolding parse_part_headers boundary_of parts_of
best_of inner msg none = done none
best_of inner msg (some body) =
    let headers = copy_range msg body in
    parts_of inner (parse_part_headers headers) body (boundary_of headers)

-- extract_best_part_rec; the fuel bounds how deep parts lie in parts
unfoldable pub extract_best_part_rec : ℕ → Bytes → Run (Option Part)
unfolding find_body_start best_of
extract_best_part_rec zero msg = stuck
extract_best_part_rec (suc f) msg = best_of (extract_best_part_rec f) msg (find_body_start msg)

-- A part is shorter than the message that it lies in, so this fuel is enough.
unfoldable pub extract_best_part : Bytes → Run (Option Part)
unfolding extract_best_part_rec
extract_best_part msg = extract_best_part_rec (suc (length msg)) msg
