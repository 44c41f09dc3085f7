-- ===== src/Next/Lines.antt =====
-- The line that next_text (text.c) writes for the texts before the first one.
use sklaffkom.Base.{
  ℕ, ◌+◌, ◌-◌, ◌≤◌, ◌≡◌, refl, sym, ap, ◌∙◌, some, List, [], ◌∷◌, ◌++◌, arith, Bytes, length,
  length-append,
}
use sklaffkom.Confs.Codec.{stringify-line, print_intervals-append}
use sklaffkom.Confs.Replace.{before_entry-render}
use sklaffkom.Confs.Search.{render, render-append, lookup, put, lookup-Splits}
use sklaffkom.Confs.{ConfsEntry, before_entry, stringify_confs_struct, print_intervals}
use sklaffkom.Libc.{print_nat, print_fuel}
use sklaffkom.Confs.Codec.{length_digits}
use sklaffkom.Libc.Errno.{length-print_nat}
use sklaffkom.Next.{rewritten}

-- the entry with the texts before `first` read
abbrev pub before_first : ConfsEntry → ℕ → ConfsEntry
before_first cse first = record cse { il = record { from = 1; to = first - 1 } ∷ [] }

line-before_first :
    (cse : ConfsEntry) (first : ℕ) (rest : Bytes)
    → stringify_confs_struct (before_first cse first) ++ rest
      ≡ print_nat cse.num (b':' ∷ b'1' ∷ b'-' ∷ print_nat (first - 1) (b'\n' ∷ rest))
line-before_first cse first rest =
    stringify-line (before_first cse first) rest
    ∙ (unfold print_intervals print_nat print_fuel in refl)

-- In the file, that line takes the place of the entry's.
pub rewritten-render :
    (conf : ℕ) (cse old : ConfsEntry) (es : List ConfsEntry) (first : ℕ)
    → (cse.num ≡ conf)
    → (h : lookup conf es ≡ some old)
    → rewritten cse first (render es) (render (lookup-Splits conf es old h).post)
      ≡ render (put (before_first cse first) es)
rewritten-render conf cse old es first num h =
    let parts = lookup-Splits conf es old h in
    let tail = print_nat cse.num (58 ∷ 49 ∷ 45 ∷ print_nat (first - 1) (10 ∷ render parts.post)) in
    let file = ap render parts.splits ∙ render-append parts.pre (old ∷ parts.post) in
    let new =
      ap render (parts.put_is (before_first cse first) num)
      ∙ render-append parts.pre (before_first cse first ∷ parts.post) in
    ap (λ b. before_entry b (render parts.post) ++ tail) file
    ∙ ap (λ b. b ++ tail) (before_entry-render parts.pre old (render parts.post))
    ∙ ap (λ l. render parts.pre ++ l) (sym (line-before_first cse first (render parts.post)))
    ∙ sym new

length-line :
    (cse : ConfsEntry) (rest : Bytes)
    → length (print_nat cse.num []) + 2 + length rest ≤ length (stringify_confs_struct cse ++ rest)
length-line cse rest =
    let tail = print_intervals cse.il [] in
    rw (stringify-line cse rest, print_intervals-append cse.il [] (10 ∷ rest))
      (omega
        (arith, length_digits cse.num (58 ∷ (tail ++ 10 ∷ rest)), length-append tail (10 ∷ rest)))

length-before_first :
    (cse : ConfsEntry) (first : ℕ) (rest : Bytes)
    → first ≤ 10000000
    → length (stringify_confs_struct (before_first cse first) ++ rest)
      ≤ length (print_nat cse.num []) + 11 + length rest
length-before_first cse first rest h = rw (line-before_first cse first rest) (
    omega (
      arith,
      length_digits cse.num (58 ∷ 49 ∷ 45 ∷ print_nat (first - 1) (10 ∷ rest)),
      length-print_nat (first - 1) 6 (10 ∷ rest) (omega arith),
    ))

-- The new line is longer than the old one by nine bytes at most: the file fits in the buffer.
pub length-put-before_first :
    (conf : ℕ) (cse old : ConfsEntry) (es : List ConfsEntry) (first : ℕ)
    → cse.num ≡ conf
    → lookup conf es ≡ some old
    → old.num ≡ cse.num
    → first ≤ 10000000
    → length (render (put (before_first cse first) es)) ≤ length (render es) + 9
length-put-before_first conf cse old es first num h same bound =
    let parts = lookup-Splits conf es old h in
    let file = ap render parts.splits ∙ render-append parts.pre (old ∷ parts.post) in
    let new =
      ap render (parts.put_is (before_first cse first) num)
      ∙ render-append parts.pre (before_first cse first ∷ parts.post) in
    let digits : length (print_nat old.num []) ≡ length (print_nat cse.num []) =
      ap (λ n. length (print_nat n [])) same in
    let old_line = length-line old (render parts.post) in
    let new_line = length-before_first cse first (render parts.post) bound in
    rw (new, file)
      (omega (
        arith,
        length-append (render parts.pre) (stringify_confs_struct old ++ render parts.post),
        length-append (render parts.pre)
            (stringify_confs_struct (before_first cse first) ++ render parts.post),
      ))
