-- ===== src/Confs/Search.antt =====
-- The loops over the entries of a whole `confs` file, against the list of its entries.
use sklaffkom.Base.{
  ℕ, zero, suc, ◌≤◌, ◌<◌, Bool, true, ◌≡◌, refl, sym, ap, ◌∙◌, Option, none, some, List, [], ◌∷◌,
  ◌++◌, arith, Bytes, length, length-append, ◌==◌, if◌then◌else◌, All, inl, inr, Bool-cases,
  append_assoc,
}
use sklaffkom.Confs.Codec.{Fits, get_confs_entry-stringify, stringify-line, line-split, line_text}
use sklaffkom.Confs.{
  ConfsEntry, stringify_confs_struct, get_confs_entry, Lookup, found, missing, find_entry,
  find_confs, test_entry,
}
use sklaffkom.Libc.{strchr_next}

-- The file that holds these entries.
abbrev pub render : List ConfsEntry → Bytes
render [] = []
render (e ∷ es) = stringify_confs_struct e ++ render es

pub render-append : (es fs : List ConfsEntry) → render (es ++ fs) ≡ render es ++ render fs
render-append [] fs = refl
render-append (e ∷ es) fs =
    ap (λ t. stringify_confs_struct e ++ t) (render-append es fs)
    ∙ sym (append_assoc (stringify_confs_struct e) (render es) (render fs))

abbrev pub lookup_rest : ℕ → List ConfsEntry → Option (ConfsEntry × List ConfsEntry)
lookup_rest conf [] = none
lookup_rest conf (e ∷ es) = if e.num == conf then some (e, es) else lookup_rest conf es

-- the entry of a conference
abbrev pub lookup : ℕ → List ConfsEntry → Option ConfsEntry
lookup conf [] = none
lookup conf (e ∷ es) = if e.num == conf then some e else lookup conf es

-- the list with the entry of the same conference replaced
abbrev pub put : ConfsEntry → List ConfsEntry → List ConfsEntry
put e [] = []
put e (d ∷ es) = if d.num == e.num then e ∷ es else d ∷ put e es

abbrev pub as_lookup : Option (ConfsEntry × List ConfsEntry) → Lookup
as_lookup none = missing
as_lookup (some (e, post)) = found e (some (render post))

pub length-render : (es : List ConfsEntry) → length es ≤ length (render es)
length-render [] = omega arith
length-render (e ∷ es) =
    let text : stringify_confs_struct e ++ render es ≡ line_text e ++ 10 ∷ render es =
      stringify-line e (render es) ∙ line-split e (render es) in
    rw text (omega (arith, length-append (line_text e) (10 ∷ render es), length-render es))

find_entry-suc :
    (f conf : ℕ) (seen : Bool) (buf : Bytes)
    → find_entry (suc f) conf seen buf
      ≡ test_entry conf seen (find_entry f conf true) (get_confs_entry buf)
unfolding find_entry
find_entry-suc f conf seen buf = refl

find_entry-render :
    (f conf : ℕ) (es : List ConfsEntry)
    → length es < f
    → All Fits es
    → find_entry f conf true (render es) ≡ as_lookup (lookup_rest conf es)
find_entry-render zero conf es h fits = elim h [ ]
find_entry-render (suc f) conf [] h fits = unfold find_entry get_confs_entry strchr_next in refl
find_entry-render (suc f) conf (e ∷ es) h fits =
    rw (find_entry-suc, get_confs_entry-stringify e (render es) fits.0)
      (ground (arith, find_entry-render f conf es (omega arith) fits.1))

-- The loop finds the entry of the conference and the place behind its line, or finds that there is
-- none, in every file that holds at least one entry.
pub find_confs-render :
    (conf : ℕ) (e : ConfsEntry) (es : List ConfsEntry)
    → All Fits (e ∷ es)
    → find_confs conf (render (e ∷ es)) ≡ as_lookup (lookup_rest conf (e ∷ es))
unfolding find_confs
find_confs-render conf e es fits =
    let enough = length-render (e ∷ es) in
    rw (find_entry-suc, get_confs_entry-stringify e (render es) fits.0)
      (ground (arith, find_entry-render (length (stringify_confs_struct e ++ render es)) conf es))

-- Where the entry was found, the file is what stands before it, the entry, and the rest.
pub record Splits (conf : ℕ) (es : List ConfsEntry) (cse : ConfsEntry) : Type 0 where
  pub pre : List ConfsEntry
  pub post : List ConfsEntry
  pub rest_is : lookup_rest conf es ≡ some (cse, post)
  pub splits : es ≡ pre ++ cse ∷ post
  pub put_is : (e : ConfsEntry) → e.num ≡ conf → put e es ≡ pre ++ e ∷ post

pub lookup-Splits :
    (conf : ℕ) (es : List ConfsEntry) (cse : ConfsEntry)
    → lookup conf es ≡ some cse
    → Splits conf es cse
lookup-Splits conf [] cse h = cc
lookup-Splits conf (e ∷ es) cse h = elim (Bool-cases (e.num == conf)) [
  | inl here ↦
      let same : e ≡ cse = ground arith in
      record {
        pre = [];
        post = es;
        rest_is = rw here (ap (λ d. some (d, es)) same);
        splits = ap (λ d. d ∷ es) same;
        put_is = λ d p. ground arith;
      }
  | inr there ↦
      let deeper = lookup-Splits conf es cse (ground arith) in
      record {
        pre = e ∷ deeper.pre;
        post = deeper.post;
        rest_is = rw there deeper.rest_is;
        splits = ap (◌∷◌ e) deeper.splits;
        put_is = λ d p. ground (arith, deeper.put_is d p);
      }
]

pub lookup_rest-none :
    (conf : ℕ) (es : List ConfsEntry) → lookup conf es ≡ none → lookup_rest conf es ≡ none
lookup_rest-none conf [] h = refl
lookup_rest-none conf (e ∷ es) h = ground (arith, lookup_rest-none conf es)

-- Looking up after a replacement, where the list has an entry of that conference.
pub lookup-put :
    (conf : ℕ) (e old : ConfsEntry) (es : List ConfsEntry)
    → lookup e.num es ≡ some old
    → lookup conf (put e es) ≡ (if e.num == conf then some e else lookup conf es)
lookup-put conf e old [] h = cc
lookup-put conf e old (d ∷ es) h = ground (arith, lookup-put conf e old es)
