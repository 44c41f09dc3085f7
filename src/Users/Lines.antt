-- ===== src/Users/Lines.antt =====
-- One line of USER_FILE: stringify_user_struct (user.c), and what set_sklaff_user_name reads of it.
use sklaffkom.Base.{
  ℕ, ◌≤◌, ◌≡◌, refl, sym, ap, ◌∙◌, none, some, [], ◌∷◌, ◌++◌, arith, Bytes, ℤ, pos, if◌then◌else◌,
  eqb_ℤ,
}
use sklaffkom.Libc.Columns.{print_int-cons}
use sklaffkom.Libc.Decimal.{Lacks, print_int-append, print_int-Lacks}
use sklaffkom.Libc.Errno.{strtol_errno-print_nat}
use sklaffkom.Libc.{print_int, strtol_errno, int_max, long_max}
use sklaffkom.Users.{UserEntry, user_line, split_line, number_column, session_start}

-- The numbers are not negative and fit their C types, and the name has no newline.
pub record Fits (ue : UserEntry) : Type 0 where
  pub number : ℕ
  pub num_is : ue.num ≡ pos number
  pub num : number ≤ int_max
  pub session : ℕ
  pub session_is : ue.last_session ≡ pos session
  pub last_session : session ≤ long_max
  pub name : Lacks b'\n' ue.name

-- the line of an entry, before `tail`
abbrev pub line_of : UserEntry → Bytes → Bytes
line_of ue tail = user_line ue.num ue.last_session ue.name tail

-- the line before its newline
abbrev pub user_text : UserEntry → Bytes
user_text ue = print_int ue.num (b':' ∷ print_int ue.last_session (b':' ∷ ue.name))

pub user_line-text :
    (num session : ℤ) (name tail : Bytes)
    → user_line num session name tail
      ≡ print_int num (b':' ∷ print_int session (b':' ∷ name)) ++ b'\n' ∷ tail
user_line-text num session name tail =
    ap (λ t. print_int num (58 ∷ t)) (print_int-append session (58 ∷ name) (10 ∷ tail))
    ∙ print_int-append num (58 ∷ print_int session (58 ∷ name)) (10 ∷ tail)

user_text-Lacks : (ue : UserEntry) → Fits ue → Lacks b'\n' (user_text ue)
user_text-Lacks ue h =
    let field =
      λ (z : ℤ) (t : Bytes) (k : Lacks 10 t). print_int-Lacks 10 z (58 ∷ t) refl refl (refl, k) in
    field ue.num _ (field ue.last_session ue.name h.name)

split_line-found :
    (t rest : Bytes) → Lacks b'\n' t → split_line (t ++ b'\n' ∷ rest) ≡ (t ++ b'\n' ∷ [], rest)
unfolding split_line
split_line-found [] rest h = refl
split_line-found (c ∷ t) rest h = rw (h.0, split_line-found t rest h.1) refl

pub split_line-line_of :
    (ue : UserEntry) (rest : Bytes) → Fits ue → split_line (line_of ue rest) ≡ (line_of ue [], rest)
split_line-line_of ue rest h =
    ap split_line (user_line-text ue.num ue.last_session ue.name rest)
    ∙ split_line-found (user_text ue) rest (user_text-Lacks ue h)
    ∙ ap (λ l. (l, rest)) (sym (user_line-text ue.num ue.last_session ue.name []))

-- what stands behind the number
abbrev pub session_text : UserEntry → Bytes → Bytes
session_text ue rest = print_int ue.last_session (b':' ∷ (ue.name ++ b'\n' ∷ rest))

pub session_start-line_of :
    (uid : ℤ) (ue : UserEntry) (rest : Bytes)
    → Fits ue
    → session_start uid (line_of ue rest)
      ≡ (if eqb_ℤ ue.num uid then some (session_text ue rest) else none)
session_start-line_of uid ue rest h = rw (h.num_is) (
    unfold print_int in
    rw (strtol_errno-print_nat h.number (58 ∷ session_text ue rest) (omega (arith, h.num)) refl)
      refl)

pub number_column-session :
    (ue : UserEntry) (rest : Bytes)
    → Fits ue
    → number_column (strtol_errno (session_text ue rest))
      ≡ some (ue.last_session, ue.name ++ b'\n' ∷ rest)
number_column-session ue rest h = rw (h.session_is) (
    unfold print_int in
    rw (strtol_errno-print_nat h.session (58 ∷ (ue.name ++ 10 ∷ rest)) h.last_session refl) refl)

pub line_of-cons :
    (ue : UserEntry) (rest : Bytes) → (c : ℕ) × (s : Bytes) × (line_of ue rest ≡ c ∷ s)
line_of-cons ue rest = print_int-cons ue.num _
