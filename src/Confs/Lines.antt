-- ===== src/Confs/Lines.antt =====
-- Going back in a file of lines to the start of a line, as replace_confs and replace_conf (conf.c) do.
use mathlib.Core.List.{reverse-append, reverse-reverse, reverse-cons}
use sklaffkom.Base.{
  ℕ, false, ◌≡◌, refl, sym, ap, ◌∙◌, [], ◌∷◌, ◌++◌, arith, Bytes, length-append, take,
  take-length-append, ◌==◌, All-reverse, reverse, append_assoc,
}
use sklaffkom.Confs.{drop_newlines, drop_line, consumed, before_entry}
use sklaffkom.Libc.Decimal.{Lacks}

-- What stands before a line, read backwards: nothing, or a newline with a line before it.
pub data Above : Bytes → Type 0 where
  top : Above []
  below : (c : ℕ) (w : Bytes) → Above (b'\n' ∷ c ∷ w)

snoc-cases : (c : ℕ) (w : Bytes) → (d : ℕ) × (v : Bytes) × (reverse (c ∷ w) ≡ d ∷ v)
snoc-cases c w = go (reverse w) (reverse-cons c w)
  where
    go :
        (r : Bytes)
        → reverse (c ∷ w) ≡ r ++ (c ∷ [])
        → (d : ℕ) × (v : Bytes) × (reverse (c ∷ w) ≡ d ∷ v)
    go [] e = (c, [], e)
    go (x ∷ r) e = (x, r ++ (c ∷ []), e)

drop_newlines-text :
    (t r : Bytes) (c : ℕ)
    → Lacks b'\n' (c ∷ t)
    → drop_newlines (b'\n' ∷ ((c ∷ t) ++ r)) ≡ (c ∷ t) ++ r
unfolding drop_newlines
drop_newlines-text [] [] c h = refl
drop_newlines-text [] (d ∷ r) c h = rw h.0
drop_newlines-text (d ∷ t) r c h = rw h.0

drop_line-text : (t r : Bytes) → Lacks b'\n' t → Above r → drop_line (t ++ r) ≡ r
unfolding drop_line
drop_line-text [] _ h top = refl
drop_line-text [] _ h (below c w) = refl
drop_line-text (d ∷ []) _ h top = refl
drop_line-text (d ∷ []) _ h (below c w) = rw h.0
drop_line-text (d ∷ e ∷ t) r h a = rw h.0 (drop_line-text (e ∷ t) r h.1 a)

Above-append : {r : Bytes} (s : Bytes) → Above r → Above s → Above (r ++ s)
Above-append s top a = a
Above-append s (below c w) a = below c (w ++ s)

-- The text of a line: not empty, and without a newline.
pub record IsText (t : Bytes) : Type 0 where
  pub head : ℕ
  pub tail : Bytes
  pub parts : t ≡ head ∷ tail
  pub lacks : Lacks b'\n' t

reverse-IsText : {t : Bytes} → IsText t → (d : ℕ) × (v : Bytes) × (reverse t ≡ d ∷ v)
reverse-IsText h = let (d, v, r) = snoc-cases h.head h.tail in (d, v, ap reverse h.parts ∙ r)

reverse-line : (t : Bytes) → reverse (t ++ b'\n' ∷ []) ≡ b'\n' ∷ reverse t
reverse-line t = reverse-append t (10 ∷ [])

-- A file goes on with one more line.
pub Above-line :
    (file t : Bytes) → IsText t → Above (reverse file) → Above (reverse ((t ++ b'\n' ∷ []) ++ file))
Above-line file t h a =
    let (d, v, e) = reverse-IsText h in
    let last : Above (reverse (t ++ 10 ∷ [])) = rw (reverse-line t, e) (below d v) in
    rw (reverse-append (t ++ 10 ∷ []) file) (Above-append _ a last)

-- Going back from behind a line reaches its start, whatever lines stand before it.
pub before_entry-line :
    (pre t rest : Bytes)
    → IsText t
    → Above (reverse pre)
    → before_entry (pre ++ ((t ++ b'\n' ∷ []) ++ rest)) rest ≡ pre
unfolding before_entry
before_entry-line pre t rest h a =
    let line = t ++ 10 ∷ [] in
    let front = pre ++ line in
    let whole : pre ++ (line ++ rest) ≡ front ++ rest = sym (append_assoc pre line rest) in
    let read : consumed (front ++ rest) rest ≡ front =
      ap (λ n. take n (front ++ rest)) (omega (arith, length-append front rest))
      ∙ take-length-append front rest in
    let (d, v, text) = reverse-IsText h in
    let backwards : reverse front ≡ 10 ∷ ((d ∷ v) ++ reverse pre) =
      reverse-append pre line ∙ ap (λ r. r ++ reverse pre) (reverse-line t ∙ ap (◌∷◌ 10) text) in
    let lacks : Lacks 10 (d ∷ v) = rw text at (All-reverse (λ x. (x == 10) ≡ false) t h.lacks) in
    rw
      (
        whole,
        read,
        backwards,
        drop_newlines-text v (reverse pre) d lacks,
        drop_line-text (d ∷ v) (reverse pre) lacks a,
      )
      (reverse-reverse pre)
