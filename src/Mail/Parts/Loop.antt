-- ===== src/Mail/Parts/Loop.antt =====
-- The loop of extract_best_part in mailbody.c over the parts of a message of Printed.
use sklaffkom.Base.{
  refl, some, false, [], ◌∷◌, ◌++◌, Bytes, List, ◌≡◌, Option, drop, ℕ, length, All, ltb, arith,
  length-append, ◌+◌, suc, map, ◌∙◌, zero, true,
}
use sklaffkom.Libc.Decimal.{Lacks}
use sklaffkom.Mail.Headers.{Part, parse_part_headers}
use sklaffkom.Mail.Parts.{
  Run, done, KeptParts, part_kept, part_round, behind_marker, keep_part, is_multipart_type,
  skip_bytes, parts_loop, past_end,
}
use sklaffkom.Mail.Parts.Printed.{
  Leaf, Fits, headed, printed, part_of, marker, EndsWith, EndsWith-printed, next_marker-text,
  find_body_start-headed, copy_range-headed, copy_range-text,
}
use sklaffkom.Mail.Parts.Search.{Lacks-suffix}
use sklaffkom.Mail.Parts.Chosen.{keep_parts}

module _ (inner : Bytes → Run (Option Part)) (boundary : Bytes) where
  part_kept-leaf :
      (l : Leaf) (next : Bytes) (kept : KeptParts)
      → is_multipart_type (parse_part_headers (l.header ++ b'\n' ∷ b'\n' ∷ [])).ctype ≡ false
      → part_kept inner
          (headed l.header (l.text ++ b'\n' ∷ next))
          (l.text ++ b'\n' ∷ next)
          next
          kept
        ≡ done (keep_part (part_of l) kept)
  unfolding part_kept
  part_kept-leaf l next kept flat =
      rw (copy_range-headed l.header (l.text ++ b'\n' ∷ next), copy_range-text l.text next, flat)
        refl

  behind_marker-leaf :
      (l : Leaf) (next : Bytes) (kept : KeptParts)
      → Lacks b'\n' boundary
      → Fits (marker boundary) l
      → EndsWith boundary next
      → Lacks b'\r' (headed l.header (l.text ++ b'\n' ∷ next))
      → behind_marker inner
          (marker boundary)
          kept
          (b'\n' ∷ headed l.header (l.text ++ b'\n' ∷ next))
        ≡ done (keep_part (part_of l) kept, some next)
  unfolding behind_marker part_round
  behind_marker-leaf l next kept lf fits e cr =
      rw
        (
          find_body_start-headed l.header (l.text ++ b'\n' ∷ next) fits.header cr,
          next_marker-text boundary l.text next lf fits.text e,
          part_kept-leaf l next kept fits.flat,
        )
        refl

drop-append : (s t : Bytes) → drop (length s) (s ++ t) ≡ t
drop-append [] t = refl
drop-append (x ∷ s) t = drop-append s t

skip_bytes-append : (s t : Bytes) → skip_bytes (length s) (s ++ t) ≡ done t
skip_bytes-append s t =
    let far : ltb (length (s ++ t)) (length s) ≡ false = ground (arith, length-append s t) in
    rw (far, drop-append s t) refl

-- no CR before the text of a part, and none behind it
Lacks-next :
    (header text next : Bytes)
    → Lacks b'\r' (headed header (text ++ b'\n' ∷ next))
    → Lacks b'\r' next
Lacks-next header text next cr =
    (Lacks-suffix b'\r' text (b'\n' ∷ next)
      (Lacks-suffix b'\r' header (b'\n' ∷ b'\n' ∷ (text ++ b'\n' ∷ next)) cr).1.1).1

module _ (inner : Bytes → Run (Option Part)) (boundary : Bytes) where
  parts_loop-leaf :
      (l : Leaf) (f : ℕ) (next : Bytes) (kept : KeptParts)
      → Lacks b'\n' boundary
      → Fits (marker boundary) l
      → EndsWith boundary next
      → Lacks b'\r' (headed l.header (l.text ++ b'\n' ∷ next))
      → parts_loop inner
          (marker boundary)
          (suc f)
          (some (marker boundary ++ b'\n' ∷ headed l.header (l.text ++ b'\n' ∷ next)))
          kept
        ≡ parts_loop inner (marker boundary) f (some next) (keep_part (part_of l) kept)
  unfolding parts_loop
  parts_loop-leaf l f next kept lf fits e cr =
      rw
        (
          skip_bytes-append (marker boundary) (b'\n' ∷ headed l.header (l.text ++ b'\n' ∷ next)),
          behind_marker-leaf inner boundary l next kept lf fits e cr,
        )
        refl

  pub parts_loop-printed :
      (ls : List Leaf) (g f : ℕ) (tail : Bytes) (kept : KeptParts)
      → Lacks b'\n' boundary
      → All (Fits (marker boundary)) ls
      → EndsWith boundary tail
      → Lacks b'\r' (printed (marker boundary) ls tail)
      → g ≡ length ls + f
      → parts_loop inner (marker boundary) g (some (printed (marker boundary) ls tail)) kept
        ≡ parts_loop inner (marker boundary) f (some tail) (keep_parts (map part_of ls) kept)
  parts_loop-printed [] g f tail kept lf fits e cr h =
      let same : g ≡ f = omega (arith, h) in rw same refl
  parts_loop-printed (l ∷ ls) zero f tail kept lf fits e cr h = absurd (omega (arith, h))
  parts_loop-printed (l ∷ ls) (suc g) f tail kept lf (fl, fits) e cr h =
      let m = marker boundary in
      let next = printed m ls tail in
      let here = headed l.header (l.text ++ b'\n' ∷ next) in
      let cr_here : Lacks b'\r' here = (Lacks-suffix b'\r' m (b'\n' ∷ here) cr).1 in
      let cr_next = Lacks-next l.header l.text next cr_here in
      parts_loop-leaf l g next kept lf fl (EndsWith-printed boundary ls tail e) cr_here
      ∙ parts_loop-printed ls g f tail (keep_part (part_of l) kept) lf fits e cr_next
          (omega (arith, h))

  -- the closing marker ends the loop, whatever stands behind it
  pub parts_loop-closed :
      (f : ℕ) (s : Bytes) (kept : KeptParts)
      → parts_loop inner (marker boundary) (suc f) (some (marker boundary ++ b'-' ∷ b'-' ∷ s)) kept
        ≡ done kept
  unfolding parts_loop behind_marker
  parts_loop-closed f s kept =
      rw (skip_bytes-append (marker boundary) (b'-' ∷ b'-' ∷ s)) (unfold parts_loop in refl)

  -- without one it looks for a marker behind the end
  pub parts_loop-open :
      (f : ℕ) (kept : KeptParts)
      → parts_loop inner (marker boundary) (suc f) (some []) kept ≡ past_end
  unfolding parts_loop
  parts_loop-open f kept =
      let far : ltb 0 (length (marker boundary)) ≡ true = ground arith in rw far refl
