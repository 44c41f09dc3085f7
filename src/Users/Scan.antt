-- ===== src/Users/Scan.antt =====
-- The loop of set_sklaff_user_name (user.c) over the lines of USER_FILE.
use sklaffkom.Base.{
  ℕ, zero, suc, ◌+◌, ◌≤◌, ◌<◌, Bool, ◌≡◌, refl, ap, ◌∙◌, Option, none, some, List, [], ◌∷◌, ◌++◌,
  arith, Bytes, length, length-append, ℤ, All, if◌then◌else◌, eqb_ℤ, Bool-cases, inl, inr,
}
use sklaffkom.Users.Lines.{
  Fits, line_of, split_line-line_of, session_text, session_start-line_of, number_column-session,
  line_of-cons, user_line-text,
}
use sklaffkom.Users.{UserEntry, Target, split_line, session_start, test_line, scan_users}

-- the file of these entries
abbrev pub users : List UserEntry → Bytes
users [] = []
users (e ∷ es) = line_of e (users es)

abbrev pub has_uid : ℤ → UserEntry → Bool
has_uid uid e = eqb_ℤ e.num uid

-- the number of the entries of a user
abbrev pub count_of : ℤ → List UserEntry → ℕ
count_of uid [] = 0
count_of uid (e ∷ es) = (if has_uid uid e then 1 else 0) + count_of uid es

-- the first entry of the user, with what stands before and behind it
abbrev pub target_of : ℤ → Bytes → List UserEntry → Option Target
target_of uid pre [] = none
target_of uid pre (e ∷ es) =
    if has_uid uid e
    then some (record { before = pre; behind = users es; last_session = e.last_session })
    else target_of uid (pre ++ line_of e []) es

scan-cons :
    (f : ℕ) (uid : ℤ) (pre : Bytes) (matches : ℕ) (target : Option Target) (b s : Bytes) (c : ℕ)
    → b ≡ c ∷ s
    → scan_users (suc f) uid pre matches target b
      ≡ test_line
          (λ n t. scan_users f uid (pre ++ (split_line b).0) n t (split_line b).1)
          matches
          target
          pre
          (split_line b).1
          (session_start uid b)
unfolding scan_users
scan-cons f uid pre matches target b s c e = rw e refl

scan-line :
    (f : ℕ) (uid : ℤ) (pre : Bytes) (matches : ℕ) (target : Option Target) (e : UserEntry)
    (rest : Bytes)
    → Fits e
    → scan_users (suc f) uid pre matches target (line_of e rest)
      ≡ test_line
          (λ n t. scan_users f uid (pre ++ line_of e []) n t rest)
          matches
          target
          pre
          rest
          (if has_uid uid e then some (session_text e rest) else none)
scan-line f uid pre matches target e rest h =
    let (c, s, is) = line_of-cons e rest in
    scan-cons f uid pre matches target (line_of e rest) s c is
    ∙ ap
        (λ p.
          test_line (λ n t. scan_users f uid (pre ++ p.0) n t p.1) matches target pre p.1
            (session_start uid (line_of e rest)))
        (split_line-line_of e rest h)
    ∙ ap
        (test_line (λ n t. scan_users f uid (pre ++ line_of e []) n t rest) matches target pre rest)
        (session_start-line_of uid e rest h)

-- once a match is found, the others are counted
scan-more :
    (f : ℕ) (uid : ℤ) (pre : Bytes) (n : ℕ) (target : Option Target) (es : List UserEntry)
    → length es < f
    → All Fits es
    → scan_users f uid pre (suc n) target (users es) ≡ some (some (suc n + count_of uid es, target))
unfolding scan_users
scan-more zero uid pre n target es h fits = elim h [ ]
scan-more (suc f) uid pre n target [] h fits = ap (λ k. some (some (k, target))) (omega arith)
scan-more (suc f) uid pre n target (e ∷ es) h fits =
    scan-line f uid pre (suc n) target e (users es) fits.0 ∙ elim (Bool-cases (has_uid uid e)) [
      | inl same ↦
          rw (same, scan-more f uid (pre ++ line_of e []) (suc n) target es (omega arith) fits.1)
            (ap (λ k. some (some (k, target))) (omega arith))
      | inr other ↦
          rw (other, scan-more f uid (pre ++ line_of e []) n target es (omega arith) fits.1)
            (ap (λ k. some (some (k, target))) (omega arith))
    ]

pub scan_users-users :
    (f : ℕ) (uid : ℤ) (pre : Bytes) (es : List UserEntry)
    → length es < f
    → All Fits es
    → scan_users f uid pre 0 none (users es) ≡ some (some (count_of uid es, target_of uid pre es))
unfolding scan_users
scan_users-users zero uid pre es h fits = elim h [ ]
scan_users-users (suc f) uid pre [] h fits = refl
scan_users-users (suc f) uid pre (e ∷ es) h fits =
    scan-line f uid pre 0 none e (users es) fits.0 ∙ elim (Bool-cases (has_uid uid e)) [
      | inl same ↦
          rw
            (
              same,
              number_column-session e (users es) fits.0,
              scan-more f uid (pre ++ line_of e []) 0 _ es (omega arith) fits.1,
            )
            refl
      | inr other ↦
          rw (other, scan_users-users f uid (pre ++ line_of e []) es (omega arith) fits.1)
            (ap (λ k. some (some (k, target_of uid (pre ++ line_of e []) es))) (omega arith))
    ]

pub length-users : (es : List UserEntry) → length es ≤ length (users es)
length-users [] = omega arith
length-users (e ∷ es) =
    let (c, s, is) = line_of-cons e (users es) in
    rw (user_line-text e.num e.last_session e.name (users es))
      (omega (arith, length-append _ (10 ∷ users es), length-users es))

-- the entries with the name of the first one of the user changed
abbrev pub rename : ℤ → Bytes → List UserEntry → List UserEntry
rename uid name [] = []
rename uid name (e ∷ es) =
    if has_uid uid e then record e { name = name } ∷ es else e ∷ rename uid name es
