-- ===== src/Users/Renaming.antt =====
-- set_sklaff_user_name (user.c) on the whole USER_FILE.
use mathlib.Core.Path.{subst}
use sklaffkom.Base.{
  ℕ, suc, ◌≤◌, ◌<◌, true, ◌≡◌, refl, sym, ap, ◌∙◌, none, some, List, [], ◌∷◌, ◌++◌, arith, Bytes,
  length, length-append, ℤ, pos, failure, All, if◌then◌else◌, ltb, ltb_ℤ, ◌==◌, Option-cases,
  eqb_ℤ-sound, lt→ltb, Bool-cases, inl, inr, append_assoc,
}
use sklaffkom.Libc.Errno.{length-print_nat}
use sklaffkom.Libc.{print_int, print_nat, int_max, long_max}
use sklaffkom.RawIo.{Calls, Works, open_file-Works, read_file-Works, write_file-Works}
use sklaffkom.Users.Lines.{Fits, line_of, user_line-text}
use sklaffkom.Users.Scan.{
  users, has_uid, count_of, target_of, scan_users-users, length-users, rename,
}
use sklaffkom.Users.{UserEntry, Target, user_line, realname_valid, set_sklaff_user_name}

user_line-append :
    (num session : ℤ) (name rest : Bytes)
    → user_line num session name [] ++ rest ≡ user_line num session name rest
user_line-append num session name rest =
    ap (λ l. l ++ rest) (user_line-text num session name [])
    ∙ append_assoc _ (10 ∷ []) rest
    ∙ sym (user_line-text num session name rest)

-- The new line between what stands before and behind the target makes the file of the renamed entries.
target_of-rename :
    (uid : ℤ) (name pre : Bytes) (es : List UserEntry) (t : Target)
    → target_of uid pre es ≡ some t
    → t.before ++ user_line uid t.last_session name t.behind ≡ pre ++ users (rename uid name es)
target_of-rename uid name pre [] t h = cc
target_of-rename uid name pre (e ∷ es) t h = elim (Bool-cases (has_uid uid e)) [
  | inl same ↦
      let h' : some (record { before = pre; behind = users es; last_session = e.last_session })
          ≡ some t =
        rw same at h in
      let is : record { before = pre; behind = users es; last_session = e.last_session } ≡ t = cc in
      let num = eqb_ℤ-sound e.num uid same in
      rw same (
        subst
          (λ x.
            x.before ++ user_line uid x.last_session name x.behind
            ≡ pre ++ line_of (record e { name = name }) (users es))
          is (ap (λ u. pre ++ user_line u e.last_session name (users es)) (sym num)))
  | inr other ↦
      let deeper = target_of-rename uid name (pre ++ line_of e []) es t (rw other at h) in
      rw other (
        deeper
        ∙ append_assoc pre (line_of e []) (users (rename uid name es))
        ∙ ap (λ l. pre ++ l)
            (user_line-append e.num e.last_session e.name (users (rename uid name es))))
]

-- the size of the session of the target
record IsSession (t : Target) : Type 0 where
  pub session : ℕ
  pub session_is : t.last_session ≡ pos session
  pub bound : session ≤ long_max

target_of-IsSession :
    (uid : ℤ) (pre : Bytes) (es : List UserEntry) (t : Target)
    → All Fits es
    → target_of uid pre es ≡ some t
    → IsSession t
target_of-IsSession uid pre [] t fits h = cc
target_of-IsSession uid pre (e ∷ es) t fits h = elim (Bool-cases (has_uid uid e)) [
  | inl same ↦
      let h' : some (record { before = pre; behind = users es; last_session = e.last_session })
          ≡ some t =
        rw same at h in
      let is : record { before = pre; behind = users es; last_session = e.last_session } ≡ t = cc in
      let f = fits.0 in
      subst IsSession is
        (record { session = f.session; session_is = f.session_is; bound = f.last_session })
  | inr other ↦ target_of-IsSession uid (pre ++ line_of e []) es t fits.1 (rw other at h)
]

target_of-none :
    (uid : ℤ) (pre : Bytes) (es : List UserEntry)
    → target_of uid pre es ≡ none
    → count_of uid es ≡ 0
target_of-none uid pre [] h = refl
target_of-none uid pre (e ∷ es) h = elim (Bool-cases (has_uid uid e)) [
  | inl same ↦
      let h' : some (record { before = pre; behind = users es; last_session = e.last_session })
          ≡ none =
        rw same at h in
      cc
  | inr other ↦
      rw other (omega (arith, target_of-none uid (pre ++ line_of e []) es (rw other at h)))
]

-- A line fits in the buffer.
length-user_line :
    (n session : ℕ) (name : Bytes)
    → n ≤ int_max
    → session ≤ long_max
    → length name < 80
    → length (user_line (pos n) (pos session) name []) < 512
length-user_line n session name hn hs h =
    unfold print_int in
    (omega (
      arith,
      length-print_nat n 9 (58 ∷ print_nat session (58 ∷ (name ++ 10 ∷ []))) (omega arith),
      length-print_nat session 18 (58 ∷ (name ++ 10 ∷ [])) (omega arith),
      length-append name (10 ∷ []),
    ))

valid-length : (name : Bytes) → realname_valid name ≡ true → length name < 80
unfolding realname_valid
valid-length name h = ground arith

-- set_sklaff_user_name on the bytes of a file of users whose numbers are not negative and fit their types,
-- where every system call succeeds, for a positive number that fits an int and a valid name. If
-- exactly one line is the user's, it returns 0 and the file has the new name in that line, with its
-- last session and all other lines as they were; with no such line, or more than one, it returns -1 and
-- leaves the file as it was.
pub set_sklaff_user_name-users :
    (calls : Calls) (n : ℕ) (name : Bytes) (es : List UserEntry)
    → Works calls
    → All Fits es
    → 1 ≤ n
    → n ≤ int_max
    → realname_valid name ≡ true
    → set_sklaff_user_name calls (pos n) name (users es)
      ≡ some (
          if count_of (pos n) es == 1
          then (pos 0, users (rename (pos n) name es))
          else (failure, users es))
unfolding set_sklaff_user_name
set_sklaff_user_name-users calls n name es works fits low high valid =
    let positive : ltb_ℤ (pos 0) (pos n) ≡ true = ground arith in
    let scan =
      scan_users-users (suc (length (users es))) (pos n) [] es (omega (arith, length-users es))
        fits in
    elim (Option-cases (target_of (pos n) [] es)) [
      | inl h ↦
          rw
            (
              positive,
              valid,
              open_file-Works works,
              read_file-Works works,
              set_sklaff_user_name,
              scan,
              h,
              target_of-none (pos n) [] es h,
            )
            refl
      | inr (t, h) ↦
          let s = target_of-IsSession (pos n) [] es t fits h in
          let size : ltb (length (user_line (pos n) t.last_session name [])) 512 ≡ true =
            ap (λ z. ltb (length (user_line (pos n) z name [])) 512) s.session_is
            ∙ lt→ltb _ _
                (length-user_line n s.session name high s.bound (valid-length name valid)) in
          elim (Bool-cases (count_of (pos n) es == 1)) [
            | inl one ↦
                rw
                  (
                    positive,
                    valid,
                    open_file-Works works,
                    read_file-Works works,
                    set_sklaff_user_name,
                    scan,
                    h,
                    one,
                    size,
                    target_of-rename (pos n) name [] es t h,
                    write_file-Works works,
                    works.closes,
                  )
                  refl
            | inr other ↦
                rw
                  (
                    positive,
                    valid,
                    open_file-Works works,
                    read_file-Works works,
                    set_sklaff_user_name,
                    scan,
                    h,
                    other,
                  )
                  refl
          ]
    ]
