-- ===== src/Confs/Replace.antt =====
-- replace_confs (conf.c) on a whole file.
use sklaffkom.Base.{
  ◌≡◌, refl, sym, ap, ◌∙◌, some, List, [], ◌∷◌, ◌++◌, Bytes, All, reverse, append-nil, ◌+◌, length,
  ◌<◌, arith, length-append,
}
use sklaffkom.Confs.Codec.{Fits, stringify-line, line-split, line_text, line_text-Lacks}
use sklaffkom.Confs.Lines.{Above, top, IsText, Above-line, before_entry-line}
use sklaffkom.Confs.Search.{
  render, render-append, lookup, put, lookup-Splits, find_confs-render, as_lookup,
}
use sklaffkom.Confs.{
  ConfsEntry, stringify_confs_struct, before_entry, replaced, replace_confs, in_nbuf,
}
use sklaffkom.Libc.Decimal.{Leads, leads, print_nat-Leads}

line_text-IsText : (cse : ConfsEntry) → IsText (line_text cse)
line_text-IsText cse = go (print_nat-Leads cse.num _) refl
  where
    go : {s : Bytes} → Leads s → line_text cse ≡ s → IsText (line_text cse)
    go (leads c w h) e = record { head = c; tail = w; parts = e; lacks = line_text-Lacks cse }

stringify-text : (cse : ConfsEntry) → stringify_confs_struct cse ≡ line_text cse ++ b'\n' ∷ []
stringify-text cse =
    sym (append-nil (stringify_confs_struct cse)) ∙ stringify-line cse [] ∙ line-split cse []

Above-render : (es : List ConfsEntry) → Above (reverse (render es))
Above-render [] = top
Above-render (e ∷ es) =
    rw (stringify-text e)
      (Above-line (render es) (line_text e) (line_text-IsText e) (Above-render es))

pub before_entry-render :
    (pre : List ConfsEntry) (cse : ConfsEntry) (rest : Bytes)
    → before_entry (render pre ++ (stringify_confs_struct cse ++ rest)) rest ≡ render pre
before_entry-render pre cse rest =
    rw (stringify-text cse) (
      before_entry-line (render pre) (line_text cse) rest (line_text-IsText cse) (Above-render pre))

pub in_nbuf-room : (buf new : Bytes) → length new < length buf + 79 → in_nbuf buf new ≡ some new
in_nbuf-room buf new h = ground arith

-- The new line is less than LINE_LEN bytes longer than the old one, and fits the buffer of replace_confs.
abbrev pub HasRoom : ConfsEntry → ConfsEntry → Type 0
HasRoom cse old = length (stringify_confs_struct cse) < length (stringify_confs_struct old) + 79

pub replaced-render :
    (cse old : ConfsEntry) (es : List ConfsEntry)
    → All Fits es
    → HasRoom cse old
    → lookup cse.num es ≡ some old
    → replace_confs cse (render es) ≡ some (render (put cse es))
unfolding replace_confs
replaced-render cse old [] fits room h = cc
replaced-render cse old (e ∷ es) fits room h =
    let parts = lookup-Splits cse.num (e ∷ es) old h in
    let file : render (e ∷ es)
        ≡ render parts.pre ++ (stringify_confs_struct old ++ render parts.post) =
      ap render parts.splits ∙ render-append parts.pre (old ∷ parts.post) in
    let new : render (put cse (e ∷ es))
        ≡ render parts.pre ++ (stringify_confs_struct cse ++ render parts.post) =
      ap render (parts.put_is cse refl) ∙ render-append parts.pre (cse ∷ parts.post) in
    let found_it = find_confs-render cse.num e es fits ∙ ap as_lookup parts.rest_is in
    let back =
      ap (λ b. before_entry b (render parts.post)) file
      ∙ before_entry-render parts.pre old (render parts.post) in
    let fits_nbuf : length (render (put cse (e ∷ es))) < length (render (e ∷ es)) + 79 =
      rw (new, file)
        (omega (
          arith,
          length-append (render parts.pre) (stringify_confs_struct old ++ render parts.post),
          length-append (stringify_confs_struct old) (render parts.post),
          length-append (render parts.pre) (stringify_confs_struct cse ++ render parts.post),
          length-append (stringify_confs_struct cse) (render parts.post),
        )) in
    ap (replaced cse (render (e ∷ es))) found_it
    ∙ ap (λ b. in_nbuf (render (e ∷ es)) (b ++ (stringify_confs_struct cse ++ render parts.post)))
        back
    ∙ ap (in_nbuf (render (e ∷ es))) (sym new)
    ∙ in_nbuf-room (render (e ∷ es)) (render (put cse (e ∷ es))) fits_nbuf

-- replace_confs on a file that holds an entry of the conference, for a new entry whose line has at most
-- 32767 bytes and is at most 78 bytes longer than the old one, as its two buffers need: the file of the
-- same entries with that entry replaced.
pub replace_confs-render :
    (cse old : ConfsEntry) (es : List ConfsEntry)
    → All Fits es
    → length (stringify_confs_struct cse) < 32768
    → HasRoom cse old
    → lookup cse.num es ≡ some old
    → replace_confs cse (render es) ≡ some (render (put cse es))
replace_confs-render cse old es fits short = replaced-render cse old es fits
