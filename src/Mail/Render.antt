-- ===== src/Mail/Render.antt =====
-- mailbody.c: mailbody_render_utf8_dup, the text of a message. Lynx, which renders HTML in a process of
-- its own, is a parameter: what it prints, or `none` where it cannot be run or fails.
pub mod Text
use sklaffkom.Base.{Bool, Option, none, some, [], ◌∷◌, Bytes, ◌==◌, if◌then◌else◌}
use sklaffkom.Mail.Headers.{Part}
use sklaffkom.Mail.Parts.{Run, done, is_htmlish, extract_best_part, ◌>>=◌}
use sklaffkom.Mail.Cleanup.{cleanup_text}

-- a line feed behind the text, unless it ends in one
unfoldable pub with_newline : Bytes → Bytes
with_newline [] = b'\n' ∷ []
with_newline (c ∷ []) = if c == b'\n' then c ∷ [] else c ∷ b'\n' ∷ []
with_newline (c ∷ d ∷ s) = c ∷ with_newline (d ∷ s)

unfoldable pub cleaned_if : Bool → Option Bytes → Option Bytes
unfolding cleanup_text
cleaned_if clean none = none
cleaned_if clean (some text) = if clean then some (cleanup_text text) else some text

-- `render` is render_html_with_lynx_dup
unfoldable pub render_part : (Bytes → Option Bytes) → Bool → Option Part → Option Bytes
unfolding with_newline is_htmlish cleaned_if
render_part render clean none = none
render_part render clean (some p) =
    cleaned_if clean (if is_htmlish p then render p.body else some (with_newline p.body))

-- `none` in the result is the NULL of the source
unfoldable pub mailbody_render_utf8_dup : (Bytes → Option Bytes) → Bool → Bytes → Run (Option Bytes)
unfolding extract_best_part render_part
mailbody_render_utf8_dup render clean msg =
    extract_best_part msg >>= (λ best. done (render_part render clean best))
