-- ===== src/Access/Rights.antt =====
-- Who sees a conference: get_confrc_users (buf.c), conf_right and can_see_conf (conf.c).
use sklaffkom.Base.{
  ℕ, zero, suc, ◌≤◌, ◌≡◌, refl, ◌∙◌, ap, arith, Bytes, true, false, not, ◌||◌, List, [], ◌∷◌, some,
  length, All, ℤ, pos, negsuc, leb_ℤ, ltb_ℤ, eqb_ℤ, Bool-cases, inl, inr, length-append,
  eqb_ℤ-sound,
}
use sklaffkom.Libc.{print_int, strchr_next}
use sklaffkom.Libc.Decimal.{print_int-Lacks, print_int-append, IsInt, atoi-print_int}
use sklaffkom.Libc.Search.{strchr_next-found}
use sklaffkom.Confs.{ConfsEntry}
use sklaffkom.Confs.Search.{render}
use sklaffkom.RawIo.{Calls, Works, open_file-Works, read_file-Works}
use sklaffkom.Reading.Spec.{AllWellFormed, is_member}
use sklaffkom.Reading.Counts.{member_of-is_member}
use sklaffkom.Access.{
  is, conf_access_type, on_list, conf_right, confrc_loop, get_confrc_users, get_confrc_struct,
  may_look, can_see_conf,
}

-- the file of a USER_LIST, one number on each line
abbrev pub render_users : List ℤ → Bytes
render_users [] = []
render_users (u ∷ us) = print_int u (b'\n' ∷ render_users us)

length-render_users : (us : List ℤ) → length us ≤ length (render_users us)
length-render_users [] = omega arith
length-render_users (u ∷ us) =
    rw (print_int-append u [] (10 ∷ render_users us))
      (omega (arith, length-append (print_int u []) (10 ∷ render_users us), length-render_users us))

line_end : (u : ℤ) (rest : Bytes) → strchr_next (print_int u (b'\n' ∷ rest)) b'\n' ≡ some rest
line_end u rest =
    ap (λ s. strchr_next s 10) (print_int-append u [] (10 ∷ rest))
    ∙ strchr_next-found (print_int u []) 10 rest (print_int-Lacks 10 u [] refl refl tt)

confrc_loop-render_users :
    (f : ℕ) (us : List ℤ) → length us ≤ f → All IsInt us → confrc_loop f (render_users us) ≡ us
unfolding confrc_loop
confrc_loop-render_users zero [] h k = refl
confrc_loop-render_users zero (u ∷ us) h k = elim h [ ]
confrc_loop-render_users (suc f) [] h k = unfold strchr_next in refl
confrc_loop-render_users (suc f) (u ∷ us) h k =
    rw (line_end u (render_users us), atoi-print_int u (10 ∷ render_users us) k.0 refl)
      (ap (◌∷◌ u) (confrc_loop-render_users f us (omega arith) k.1))

-- get_confrc_users reads every list of ints back from a file with one of them on each line.
pub get_confrc_users-render_users :
    (us : List ℤ) → All IsInt us → get_confrc_users (render_users us) ≡ us
unfolding get_confrc_users
get_confrc_users-render_users us h =
    confrc_loop-render_users (length (render_users us)) us (length-render_users us) h

get_confrc_struct-Works :
    {calls : Calls} (works : Works calls) (num : ℕ) (us : List ℤ)
    → All IsInt us
    → get_confrc_struct calls (pos (suc num)) (render_users us) ≡ us
unfolding get_confrc_struct
get_confrc_struct-Works works num us h =
    let positive : leb_ℤ (pos (suc num)) (pos 0) ≡ false = ground arith in
    rw
      (
        open_file-Works works,
        read_file-Works works,
        get_confrc_struct,
        positive,
        works.closes,
        get_confrc_users-render_users us h,
      )
      refl

not_negative : (a : ℤ) → leb_ℤ (pos 0) a ≡ true → ltb_ℤ a (pos 0) ≡ false
not_negative (pos n) h = ground arith
not_negative (negsuc n) h = ground arith

-- in a secret conference, conf_right lets those look who are on the list
right_secret :
    (us : List ℤ) (uid type cr_num : ℤ)
    → is (conf_access_type type) 2 ≡ true
    → eqb_ℤ cr_num uid ≡ false
    → may_look (conf_right us uid type cr_num) ≡ on_list uid us
unfolding conf_right
right_secret us uid type cr_num h k =
    let access : conf_access_type type ≡ pos 2 = eqb_ℤ-sound (conf_access_type type) (pos 2) h in
    elim (Bool-cases (on_list uid us)) [
      | inl e ↦ rw (conf_right, access, k, e) refl
      | inr e ↦ rw (conf_right, access, k, e) refl
    ]

-- can_see_conf where every system call succeeds, on the bytes of a well-formed confs file of the user
-- and of a confrc file of ints: a conference of a known type is seen by everyone if it is not secret,
-- and otherwise by its creator, its members, and those on its list.
pub can_see_conf-sees :
    (calls : Calls) (u_num t_num cr_num : ℤ) (num : ℕ) (es : List ConfsEntry) (us : List ℤ)
    → Works calls
    → AllWellFormed es
    → All IsInt us
    → leb_ℤ (pos 0) (conf_access_type t_num) ≡ true
    → can_see_conf calls u_num (suc num) t_num cr_num (render es) (render_users us)
      ≡ some (
          not (is (conf_access_type t_num) 2)
          || eqb_ℤ cr_num u_num
          || is_member (suc num) es
          || on_list u_num us)
unfolding can_see_conf
can_see_conf-sees calls u_num t_num cr_num num es us works w k valid =
    let known = not_negative (conf_access_type t_num) valid in
    elim (Bool-cases (is (conf_access_type t_num) 2)) [
      | inr e ↦ rw (can_see_conf, known, e) refl
      | inl e ↦ elim (Bool-cases (eqb_ℤ cr_num u_num)) [
        | inl c ↦ rw (can_see_conf, known, e, c) refl
        | inr c ↦ elim (Bool-cases (is_member (suc num) es)) [
          | inl m ↦
              rw (can_see_conf, known, e, c, member_of-is_member calls (suc num) es works w, m) refl
          | inr m ↦
              rw
                (
                  can_see_conf,
                  known,
                  e,
                  c,
                  member_of-is_member calls (suc num) es works w,
                  m,
                  get_confrc_struct-Works works num us k,
                  right_secret us u_num t_num cr_num e c,
                )
                refl
        ]
      ]
    ]
