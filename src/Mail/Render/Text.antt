-- ===== src/Mail/Render/Text.antt =====
-- mailbody_render_utf8_dup of mailbody.c on a message of one part.
use mathlib.Core.Option
use sklaffkom.Base.{
  ◌≡◌, refl, true, false, ◌∷◌, ◌++◌, Option, none, some, Bytes, codes, All, length, if◌then◌else◌,
  [], ap, ◌∙◌, Bool,
}
use sklaffkom.Libc.Decimal.{Lacks}
use sklaffkom.Mail.{contains}
use sklaffkom.Mail.Cleanup.{cleanup_text}
use sklaffkom.Mail.Headers.{Part, parse_part_headers}
use sklaffkom.Mail.Parts.{
  Run, done, best_of, parts_of, boundary_of, decoded_part, is_multipart_type, is_htmlish,
  extract_best_part, extract_best_part_rec, ◌>>=◌,
}
use sklaffkom.Mail.Parts.Printed.{headed, IsHeader, find_body_start-headed, copy_range-headed}
use sklaffkom.Mail.Transfer.{decode_body, transfer_decoded, is_latin1}
use sklaffkom.Mail.Transfer.Base64.{encode_base64, without_breaks, decode_base64-encode_base64}
use sklaffkom.Mail.Transfer.Latin.{IsByte}
use sklaffkom.Mail.Render.{with_newline, render_part, cleaned_if, mailbody_render_utf8_dup}

-- the part that the header of a message describes
abbrev pub described : Bytes → Part
described header = parse_part_headers (header ++ b'\n' ∷ b'\n' ∷ [])

single :
    (inner : Bytes → Run (Option Part)) (container : Part) (body : Bytes) (boundary : Option Bytes)
    → is_multipart_type container.ctype ≡ false
    → parts_of inner container body boundary ≡ done (some (decoded_part container body))
unfolding parts_of
single inner container body none h = refl
single inner container body (some b) h = rw h refl

-- a message of one part, with LF line ends
pub extract_best_part-single :
    (header body : Bytes)
    → IsHeader header
    → Lacks b'\r' (headed header body)
    → is_multipart_type (described header).ctype ≡ false
    → extract_best_part (headed header body) ≡ done (some (decoded_part (described header) body))
unfolding extract_best_part extract_best_part_rec best_of
extract_best_part-single header body h cr flat =
    rw (find_body_start-headed header body h cr, copy_range-headed header body)
      (single (extract_best_part_rec (length (headed header body))) (described header) body
        (boundary_of (header ++ b'\n' ∷ b'\n' ∷ [])) flat)

-- the header of a text in base64, in a character set that needs no conversion
pub record IsBase64Header (header : Bytes) : Type 0 where
  pub lines : IsHeader header
  pub flat : is_multipart_type (described header).ctype ≡ false
  pub not_quoted : contains (described header).cte (codes "quoted-printable") ≡ false
  pub encoded : contains (described header).cte (codes "base64") ≡ true
  pub charset : is_latin1 (described header).charset ≡ false

decode_body-base64 :
    (body s cte charset : Bytes)
    → contains cte (codes "quoted-printable") ≡ false
    → contains cte (codes "base64") ≡ true
    → is_latin1 charset ≡ false
    → All IsByte s
    → without_breaks body ≡ encode_base64 s
    → decode_body body cte charset ≡ s
unfolding decode_body transfer_decoded
decode_body-base64 body s cte charset nq b64 utf bytes e =
    rw (utf, nq, b64) (decode_base64-encode_base64 body s bytes e)

decoded_part-body :
    (p : Part) (body s : Bytes)
    → decode_body body p.cte p.charset ≡ s
    → decoded_part p body ≡ record { ctype = p.ctype; charset = p.charset; cte = p.cte; body = s }
unfolding decoded_part
decoded_part-body p body s e = rw e refl

-- the described part with a body
abbrev pub with_body : Part → Bytes → Part
with_body p s = record { ctype = p.ctype; charset = p.charset; cte = p.cte; body = s }

cleaned_if-map :
    (clean : Bool) (o : Option Bytes)
    → cleaned_if clean o ≡ Option.map (λ t. if clean then cleanup_text t else t) o
unfolding cleaned_if
cleaned_if-map clean none = refl
cleaned_if-map true (some t) = refl
cleaned_if-map false (some t) = refl

rendered :
    (render : Bytes → Option Bytes) (clean : Bool) (p : Part)
    → render_part render clean (some p)
      ≡ Option.map
          (λ t. if clean then cleanup_text t else t)
          (if is_htmlish p then render p.body else some (with_newline p.body))
unfolding render_part
rendered render clean p =
    cleaned_if-map clean (if is_htmlish p then render p.body else some (with_newline p.body))

-- A message of one part with LF line ends, whose body is the base64 encoding of a text in lines, in a
-- character set that needs no conversion, is rendered as that text, with a line feed behind it unless it ends in one: by itself where it is no HTML, and through
-- Lynx, whose output is then the result, where its type says so or it looks like HTML. Where
-- cleaning is asked for, the result is what cleanup_text makes of that.
pub mailbody_render_utf8_dup-base64 :
    (render : Bytes → Option Bytes) (clean : Bool) (header body s : Bytes)
    → IsBase64Header header
    → Lacks b'\r' (headed header body)
    → All IsByte s
    → without_breaks body ≡ encode_base64 s
    → mailbody_render_utf8_dup render clean (headed header body)
      ≡ done (
          Option.map
            (λ t. if clean then cleanup_text t else t)
            (if is_htmlish (with_body (described header) s)
              then render s
              else some (with_newline s)))
unfolding mailbody_render_utf8_dup
mailbody_render_utf8_dup-base64 render clean header body s is cr bytes e =
    let p = described header in
    let decoded =
      decode_body-base64 body s p.cte p.charset is.not_quoted is.encoded is.charset bytes e in
    ap (λ (r : Run (Option Part)). r >>= (λ best. done (render_part render clean best)))
      (extract_best_part-single header body is.lines cr is.flat
        ∙ ap (λ (q : Part). done (some q)) (decoded_part-body p body s decoded))
    ∙ ap done (rendered render clean (with_body p s))
