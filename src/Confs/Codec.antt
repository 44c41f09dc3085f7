-- ===== src/Confs/Codec.antt =====
-- One line of the `confs` file: stringify_confs_struct (conf.c) and get_confs_entry (buf.c).
use sklaffkom.Base.{
  ℕ, ◌≤◌, false, ◌≡◌, refl, sym, ap, ◌∙◌, some, [], ◌∷◌, ◌++◌, arith, Bytes, ◌==◌, none, Option,
  append_assoc, length, All-append, ◌<◌, length-append, suc, zero, ◌+◌,
}
use sklaffkom.Confs.{
  ConfsEntry, print_intervals, get_interval, starts_with_newline, next_comma, strchr_next,
  get_intervals, strchr, earlier_comma, line_start, get_confs_entry, scan_start,
  stringify_confs_struct, parse_confs_line, entry,
}
use sklaffkom.Intervals.{Interval, Intervals}
use sklaffkom.Libc.Decimal.{
  Stops, Lacks, Leads, leads, print_nat-Leads, print_nat-append, print_nat-Lacks, atol-print_nat,
  atol-space, to_int-fits,
}
use sklaffkom.Libc.Search.{
  strchr_next-found, before-found, strchr-found, strchr_next-skip, length-strchr_next,
}
use sklaffkom.Libc.{isdigit, print_nat, long_max, int_max}

abbrev pub IntervalsFit : Intervals → Type 0
IntervalsFit [] = Unit
IntervalsFit (x ∷ il) = (x.from ≤ long_max) × (x.to ≤ long_max) × IntervalsFit il

-- The numbers fit the C types that the parser reads them into.
abbrev pub Fits : ConfsEntry → Type 0
Fits cse = (cse.num ≤ int_max) × IntervalsFit cse.il

pub print_intervals-append :
    (il : Intervals) (xs ys : Bytes) → print_intervals il (xs ++ ys) ≡ print_intervals il xs ++ ys
unfolding print_intervals
print_intervals-append [] xs ys = refl
print_intervals-append (x ∷ []) xs ys =
    ap (λ t. print_nat x.from (45 ∷ t)) (print_nat-append x.to xs ys) ∙ print_nat-append x.from _ ys
print_intervals-append (x ∷ y ∷ il) xs ys =
    ap (λ t. print_nat x.from (45 ∷ print_nat x.to (44 ∷ t)))
      (print_intervals-append (y ∷ il) xs ys)
    ∙ ap (λ t. print_nat x.from (45 ∷ t))
        (print_nat-append x.to (44 ∷ print_intervals (y ∷ il) xs) ys)
    ∙ print_nat-append x.from _ ys

print_intervals-Lacks :
    (c : ℕ) (il : Intervals) (tail : Bytes)
    → isdigit c ≡ false
    → (b'-' == c) ≡ false
    → (b',' == c) ≡ false
    → Lacks c tail
    → Lacks c (print_intervals il tail)
unfolding print_intervals
print_intervals-Lacks c [] tail d m k h = h
print_intervals-Lacks c (x ∷ []) tail d m k h =
    print_nat-Lacks c x.from _ d (m, print_nat-Lacks c x.to tail d h)
print_intervals-Lacks c (x ∷ y ∷ il) tail d m k h =
    print_nat-Lacks c x.from _ d
      (m, print_nat-Lacks c x.to _ d (k, print_intervals-Lacks c (y ∷ il) tail d m k h))

-- one interval, and what stands behind it
get_interval-print :
    (x : Interval) (tail : Bytes)
    → x.from ≤ long_max
    → x.to ≤ long_max
    → Stops tail
    → get_interval (print_nat x.from (b'-' ∷ print_nat x.to tail)) ≡ some x
unfolding get_interval
get_interval-print x tail hf ht stops =
    let digits = print_nat x.from [] in
    let rest = print_nat x.to tail in
    let lacks : Lacks 45 digits = print_nat-Lacks 45 x.from [] refl tt in
    let split : print_nat x.from (45 ∷ rest) ≡ digits ++ 45 ∷ rest =
      print_nat-append x.from [] (45 ∷ rest) in
    let joined : digits ++ 32 ∷ rest ≡ print_nat x.from (32 ∷ rest) =
      sym (print_nat-append x.from [] (32 ∷ rest)) in
    rw split (
      rw
        (
          strchr_next-found digits 45 rest lacks,
          before-found digits 45 rest lacks,
          joined,
          atol-print_nat x.from (32 ∷ rest) hf refl,
          atol-space rest,
          atol-print_nat x.to tail ht stops,
        )
        refl)

starts_with_newline-print : (n : ℕ) (tail : Bytes) → starts_with_newline (print_nat n tail) ≡ false
starts_with_newline-print n tail = go (print_nat-Leads n tail)
  where
    go : {s : Bytes} → Leads s → starts_with_newline s ≡ false
    go (leads c cs h) = ground arith

earlier_comma-late :
    (t1 : Bytes) (o : Option Bytes)
    → ((t2 : Bytes) → o ≡ some t2 → length t2 < length t1)
    → earlier_comma (some t1) o ≡ none
earlier_comma-late t1 none h = refl
earlier_comma-late t1 (some t2) h = let shorter = h t2 refl in ground arith

-- Behind the last interval, a comma of a later line does not count.
next_comma-last :
    (digits rest : Bytes)
    → Lacks b'\n' digits
    → Lacks b',' digits
    → next_comma (digits ++ b'\n' ∷ rest) ≡ none
unfolding next_comma
next_comma-last digits rest hn hc =
    rw (strchr-found digits 10 rest hn, strchr_next-skip digits 44 (10 ∷ rest) hc)
      (earlier_comma-late (10 ∷ rest) (strchr_next (10 ∷ rest) 44)
        (λ t2 e. length-strchr_next (10 ∷ rest) 44 t2 e))

-- Between two intervals it is found.
next_comma-more :
    (digits more rest : Bytes)
    → Lacks b'\n' digits
    → Lacks b',' digits
    → Lacks b'\n' more
    → next_comma (digits ++ b',' ∷ (more ++ b'\n' ∷ rest)) ≡ some (more ++ b'\n' ∷ rest)
unfolding next_comma
next_comma-more digits more rest hn hc hm =
    let front = digits ++ 44 ∷ more in
    let split : digits ++ 44 ∷ (more ++ 10 ∷ rest) ≡ front ++ 10 ∷ rest =
      sym (append_assoc digits (44 ∷ more) (10 ∷ rest)) in
    let newline : strchr (digits ++ 44 ∷ (more ++ 10 ∷ rest)) 10 ≡ some (10 ∷ rest) = rw split (
      strchr-found front 10 rest
        (All-append (λ x. (x == 10) ≡ false) digits (44 ∷ more) hn (refl, hm))) in
    let longer = length-append more (10 ∷ rest) in
    rw (newline, strchr_next-found digits 44 (more ++ 10 ∷ rest) hc) (ground arith)

interval_text :
    (x : Interval) (tail : Bytes)
    → print_nat x.from (b'-' ∷ print_nat x.to tail)
      ≡ print_nat x.from (b'-' ∷ print_nat x.to []) ++ tail
interval_text x tail =
    ap (λ t. print_nat x.from (45 ∷ t)) (print_nat-append x.to [] tail)
    ∙ print_nat-append x.from (45 ∷ print_nat x.to []) tail

interval_text-Lacks :
    (c : ℕ) (x : Interval)
    → isdigit c ≡ false
    → (b'-' == c) ≡ false
    → Lacks c (print_nat x.from (b'-' ∷ print_nat x.to []))
interval_text-Lacks c x d m = print_nat-Lacks c x.from _ d (m, print_nat-Lacks c x.to [] d tt)

-- The loop over the intervals of a line reads back what was printed.
get_intervals-print :
    (f : ℕ) (x : Interval) (il : Intervals) (rest : Bytes)
    → length il < f
    → IntervalsFit (x ∷ il)
    → get_intervals f (print_intervals (x ∷ il) (b'\n' ∷ rest)) ≡ some (x ∷ il)
unfolding get_intervals print_intervals
get_intervals-print zero x il rest h fits = elim h [ ]
get_intervals-print (suc f) x [] rest h fits =
    let comma : next_comma (print_nat x.from (45 ∷ print_nat x.to (10 ∷ rest))) ≡ none =
      rw interval_text (
        next_comma-last _ rest (interval_text-Lacks 10 x refl refl)
          (interval_text-Lacks 44 x refl refl)) in
    rw (starts_with_newline-print, get_interval-print x (10 ∷ rest) fits.0 fits.1 refl, comma) refl
get_intervals-print (suc f) x (y ∷ il) rest h fits =
    let more = print_intervals (y ∷ il) [] in
    let split : print_intervals (y ∷ il) (10 ∷ rest) ≡ more ++ 10 ∷ rest =
      print_intervals-append (y ∷ il) [] (10 ∷ rest) in
    let comma : next_comma
          (print_nat x.from (45 ∷ print_nat x.to (44 ∷ print_intervals (y ∷ il) (10 ∷ rest))))
        ≡ some (print_intervals (y ∷ il) (10 ∷ rest)) =
      rw (interval_text x (44 ∷ print_intervals (y ∷ il) (10 ∷ rest)), split)
        (next_comma-more _ more rest (interval_text-Lacks 10 x refl refl)
          (interval_text-Lacks 44 x refl refl)
          (print_intervals-Lacks 10 (y ∷ il) [] refl refl refl tt)) in
    rw
      (
        starts_with_newline-print,
        get_interval-print x (44 ∷ print_intervals (y ∷ il) (10 ∷ rest)) fits.0 fits.1 refl,
        comma,
        get_intervals-print f y il rest (omega arith) fits.2,
      )
      refl

pub length_digits :
    (n : ℕ) (tail : Bytes) → length (print_nat n tail) ≡ length (print_nat n []) + length tail
length_digits n tail = ap length (print_nat-append n [] tail) ∙ length-append (print_nat n []) tail

pub length_tail-print_nat : (n : ℕ) (tail : Bytes) → length tail ≤ length (print_nat n tail)
length_tail-print_nat n tail =
    rw (print_nat-append n [] tail) (omega (arith, length-append (print_nat n []) tail))

length-print_intervals :
    (il : Intervals) (tail : Bytes) → length il ≤ length (print_intervals il tail)
unfolding print_intervals
length-print_intervals [] tail = omega arith
length-print_intervals (x ∷ []) tail =
    omega (arith, length_tail-print_nat x.from (45 ∷ print_nat x.to tail))
length-print_intervals (x ∷ y ∷ il) tail = omega (
  arith,
  length_tail-print_nat x.from (45 ∷ print_nat x.to (44 ∷ print_intervals (y ∷ il) tail)),
  length_tail-print_nat x.to (44 ∷ print_intervals (y ∷ il) tail),
  length-print_intervals (y ∷ il) tail,
)

get_intervals-line :
    (il : Intervals) (rest : Bytes)
    → IntervalsFit il
    → get_intervals
        (suc (length (print_intervals il (b'\n' ∷ rest))))
        (print_intervals il (b'\n' ∷ rest))
      ≡ some il
get_intervals-line [] rest fits = unfold get_intervals print_intervals in refl
get_intervals-line (x ∷ il) rest fits =
    get_intervals-print _ x il rest (omega (arith, length-print_intervals (x ∷ il) (10 ∷ rest)))
      fits

scan_start-stays :
    (start digits rest : Bytes)
    → Lacks b':' digits
    → Lacks b'\n' digits
    → scan_start start (digits ++ b':' ∷ rest) ≡ start
unfolding scan_start
scan_start-stays start [] rest hc hn = refl
scan_start-stays start (d ∷ digits) rest hc hn =
    rw (hc.0, hn.0) (scan_start-stays start digits rest hc.1 hn.1)

line_start-stays :
    (digits rest : Bytes)
    → Lacks b':' digits
    → Lacks b'\n' digits
    → line_start (digits ++ b':' ∷ rest) ≡ digits ++ b':' ∷ rest
unfolding line_start
line_start-stays [] rest hc hn = refl
line_start-stays (d ∷ digits) rest hc hn = rw hc.0 (scan_start-stays _ digits rest hc.1 hn.1)

-- A printed line with `rest` behind it.
abbrev pub line : ConfsEntry → Bytes → Bytes
line cse rest = print_nat cse.num (b':' ∷ print_intervals cse.il (b'\n' ∷ rest))

pub stringify-line :
    (cse : ConfsEntry) (rest : Bytes) → stringify_confs_struct cse ++ rest ≡ line cse rest
unfolding stringify_confs_struct
stringify-line cse rest =
    sym (print_nat-append cse.num (58 ∷ print_intervals cse.il (10 ∷ [])) rest)
    ∙ ap (λ t. print_nat cse.num (58 ∷ t)) (sym (print_intervals-append cse.il (10 ∷ []) rest))

-- The text of a line before its newline.
abbrev pub line_text : ConfsEntry → Bytes
line_text cse = print_nat cse.num (b':' ∷ print_intervals cse.il [])

pub line-split : (cse : ConfsEntry) (rest : Bytes) → line cse rest ≡ line_text cse ++ b'\n' ∷ rest
line-split cse rest =
    ap (λ t. print_nat cse.num (58 ∷ t)) (print_intervals-append cse.il [] (10 ∷ rest))
    ∙ print_nat-append cse.num (58 ∷ print_intervals cse.il []) (10 ∷ rest)

pub line_text-Lacks : (cse : ConfsEntry) → Lacks b'\n' (line_text cse)
line_text-Lacks cse =
    print_nat-Lacks 10 cse.num _ refl (refl, print_intervals-Lacks 10 cse.il [] refl refl refl tt)

-- get_confs_entry reads a line written by stringify_confs_struct back, whatever follows it in the
-- buffer, and returns the place behind the line, for every entry whose numbers fit their C types.
pub get_confs_entry-stringify :
    (cse : ConfsEntry) (rest : Bytes)
    → Fits cse
    → get_confs_entry (stringify_confs_struct cse ++ rest) ≡ entry cse (some rest)
unfolding get_confs_entry parse_confs_line
get_confs_entry-stringify cse rest fits =
    let digits = print_nat cse.num [] in
    let body = print_intervals cse.il (10 ∷ rest) in
    let split : line cse rest ≡ digits ++ 58 ∷ body = print_nat-append cse.num [] (58 ∷ body) in
    let colon : strchr_next (line cse rest) 58 ≡ some body =
      rw split (strchr_next-found digits 58 body (print_nat-Lacks 58 cse.num [] refl tt)) in
    let start : line_start (line cse rest) ≡ line cse rest = rw split (
      line_start-stays digits body (print_nat-Lacks 58 cse.num [] refl tt)
        (print_nat-Lacks 10 cse.num [] refl tt)) in
    let end : strchr_next (line cse rest) 10 ≡ some rest =
      rw line-split (strchr_next-found (line_text cse) 10 rest (line_text-Lacks cse)) in
    let num = atol-print_nat cse.num (58 ∷ body) (omega arith) refl in
    rw stringify-line (
      rw (colon, start, end, num, to_int-fits cse.num fits.0, get_intervals-line cse.il rest fits.1)
        refl)
