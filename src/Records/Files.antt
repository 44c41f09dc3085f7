-- ===== src/Records/Files.antt =====
-- The loops over a file of entries, against the list of its entries.
use mathlib.Core.Path.{subst}
use sklaffkom.Base.{
  ℕ, zero, suc, ◌≤◌, ◌<◌, Bool, ◌≡◌, refl, sym, ap, ◌∙◌, Option, none, some, List, [], ◌∷◌, ◌++◌,
  arith, Bytes, length, length-append, All, append_assoc, find_first, find_rest, replace_first,
  remove_first, find_first-Split, reverse,
}
use sklaffkom.Confs.Lines.{Above, top, IsText, Above-line, before_entry-line}
use sklaffkom.Confs.{before_entry}
use sklaffkom.Records.{Reads, read_loop, read_until}

-- A kind of entry: how one is read, the text of its line before the newline, and that what is read is
-- what was written.
pub record Format (A : Type 0) : Type 1 where
  pub fetch : Bytes → Reads A
  pub text : A → Bytes
  pub Fits : A → Type 0
  pub reads :
      (e : A) (rest : Bytes) → Fits e → fetch (text e ++ b'\n' ∷ rest) ≡ some (some (e, rest))
  pub ends : fetch [] ≡ some none
  pub texts : (e : A) → Fits e → IsText (text e)

module _ {A : Type 0} (format : Format A) where
  -- the file that holds these entries
  abbrev pub file_of : List A → Bytes
  file_of [] = []
  file_of (e ∷ es) = format.text e ++ b'\n' ∷ file_of es

  abbrev pub as_read : Option (A × List A) → Option (A × Bytes)
  as_read none = none
  as_read (some (e, post)) = some (e, file_of post)

module _ {A : Type 0} (format : Format A) where
  pub file_of-append :
      (es fs : List A) → file_of format (es ++ fs) ≡ file_of format es ++ file_of format fs
  file_of-append [] fs = refl
  file_of-append (e ∷ es) fs =
      ap (λ t. format.text e ++ 10 ∷ t) (file_of-append es fs)
      ∙ sym (append_assoc (format.text e) (10 ∷ file_of format es) (file_of format fs))

  length-file_of : (es : List A) → length es ≤ length (file_of format es)
  length-file_of [] = omega arith
  length-file_of (e ∷ es) =
      omega (arith, length-append (format.text e) (10 ∷ file_of format es), length-file_of es)

  read_loop-file_of :
      (is : A → Bool) (f : ℕ) (es : List A)
      → length es < f
      → All format.Fits es
      → read_loop format.fetch is f (file_of format es) ≡ some (as_read format (find_rest is es))
  unfolding read_loop
  read_loop-file_of is zero es h fits = elim h [ ]
  read_loop-file_of is (suc f) [] h fits = rw (format.ends) refl
  read_loop-file_of is (suc f) (e ∷ es) h fits =
      rw (format.reads e (file_of format es) fits.0)
        (ground (arith, read_loop-file_of is f es (omega arith) fits.1))

  -- The loop finds the first entry that the test accepts and the place behind its line, or finds that
  -- there is none.
  pub read_until-file_of :
      (is : A → Bool) (es : List A)
      → All format.Fits es
      → read_until format.fetch is (file_of format es) ≡ some (as_read format (find_rest is es))
  unfolding read_until
  read_until-file_of is es fits =
      read_loop-file_of is (suc (length (file_of format es))) es (omega (arith, length-file_of es))
        fits

  line-file :
      (e : A) (rest : Bytes) → format.text e ++ b'\n' ∷ rest ≡ (format.text e ++ b'\n' ∷ []) ++ rest
  line-file e rest = sym (append_assoc (format.text e) (10 ∷ []) rest)

  Above-file_of : (es : List A) → All format.Fits es → Above (reverse (file_of format es))
  Above-file_of [] h = top
  Above-file_of (e ∷ es) h =
      rw (line-file e (file_of format es))
        (Above-line (file_of format es) (format.text e) (format.texts e h.0) (Above-file_of es h.1))

  All-split :
      (xs ys : List A) (y : A) → All format.Fits (xs ++ y ∷ ys) → All format.Fits xs × format.Fits y
  All-split [] ys y h = (tt, h.0)
  All-split (x ∷ xs) ys y h = let k = All-split xs ys y h.1 in ((h.0, k.0), k.1)

  -- What stands before the line of the entry that the loop found, with a new line and the rest behind it,
  -- is the file with the entry replaced.
  pub before_entry-file_of :
      (is : A → Bool) (es : List A) (old : A)
      → All format.Fits es
      → (h : find_first is es ≡ some old)
      → before_entry (file_of format es) (file_of format (find_first-Split is es old h).post)
        ≡ file_of format (find_first-Split is es old h).pre
  before_entry-file_of is es old fits h =
      let parts = find_first-Split is es old h in
      let (before, here) =
        All-split parts.pre parts.post old (subst (All format.Fits) parts.splits fits) in
      let file : file_of format es
          ≡ file_of format parts.pre ++ (format.text old ++ b'\n' ∷ file_of format parts.post) =
        ap (file_of format) parts.splits ∙ file_of-append parts.pre (old ∷ parts.post) in
      ap (λ b. before_entry b (file_of format parts.post))
        (file ∙ ap (λ t. file_of format parts.pre ++ t) (line-file old (file_of format parts.post)))
      ∙ before_entry-line (file_of format parts.pre) (format.text old) (file_of format parts.post)
          (format.texts old here) (Above-file_of parts.pre before)

  pub replace_first-file_of :
      (is : A → Bool) (es : List A) (old e : A)
      → (h : find_first is es ≡ some old)
      → file_of format (find_first-Split is es old h).pre
          ++ (format.text e ++ b'\n' ∷ file_of format (find_first-Split is es old h).post)
        ≡ file_of format (replace_first is e es)
  replace_first-file_of is es old e h =
      let parts = find_first-Split is es old h in
      sym (ap (file_of format) (parts.replaced e) ∙ file_of-append parts.pre (e ∷ parts.post))

  pub remove_first-file_of :
      (is : A → Bool) (es : List A) (old : A)
      → (h : find_first is es ≡ some old)
      → file_of format (find_first-Split is es old h).pre
          ++ file_of format (find_first-Split is es old h).post
        ≡ file_of format (remove_first is es)
  remove_first-file_of is es old h =
      let parts = find_first-Split is es old h in
      sym (ap (file_of format) parts.removed ∙ file_of-append parts.pre parts.post)
