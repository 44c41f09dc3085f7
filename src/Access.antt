-- ===== src/Access.antt =====
-- Who may see a conference: the types of conferences of sklaff.h, and conf_right, get_confrc_struct
-- and can_see_conf of conf.c with get_confrc_users of buf.c. That malloc fails is left out.
pub mod Types
pub mod Rights
use sklaffkom.Base.{
  ℕ, zero, suc, [], ◌∷◌, List, Bytes, Bool, true, false, ◌||◌, ◌&&◌, not, Option, none, some,
  if◌then◌else◌, ℤ, pos, negsuc, failure, eqb_ℤ, leb_ℤ, ltb_ℤ, length,
}
use sklaffkom.Libc.{atoi, strchr_next}
use sklaffkom.RawIo.{Calls, open_file, read_file, close_file}
use sklaffkom.Reading.{member_of}

-- `type == n`
abbrev pub is : ℤ → ℕ → Bool
is type n = eqb_ℤ type (pos n)

unfoldable pub conf_access_type : ℤ → ℤ
conf_access_type type =
    if is type 0 || is type 3 || is type 4
    then pos 0
    else if is type 1 || is type 5 || is type 7
    then pos 1
    else if is type 2 || is type 6 || is type 8
    then pos 2
    else failure

unfoldable pub conf_is_news : ℤ → Bool
conf_is_news type = is type 3 || is type 5 || is type 6

unfoldable pub conf_is_ftn : ℤ → Bool
conf_is_ftn type = is type 4 || is type 7 || is type 8

unfoldable pub conf_transport_type : ℤ → ℤ
conf_transport_type type =
    if conf_is_news type
    then pos 3
    else if conf_is_ftn type
    then pos 4
    else if leb_ℤ (pos 0) (conf_access_type type)
    then pos 0
    else failure

abbrev pub with_access : ℤ → ℤ → ℤ → ℤ → ℤ
with_access access closed secret plain =
    if is access 1 then closed else if is access 2 then secret else plain

unfoldable pub conf_make_type : ℤ → ℤ → ℤ
conf_make_type transport access =
    if not (is access 0) && not (is access 1) && not (is access 2)
    then failure
    else if is transport 0
    then access
    else if is transport 3
    then with_access access (pos 5) (pos 6) (pos 3)
    else if is transport 4
    then with_access access (pos 7) (pos 8) (pos 4)
    else failure

-- the loop over the USER_LIST
unfoldable pub on_list : ℤ → List ℤ → Bool
on_list uid [] = false
on_list uid (num ∷ ul) = eqb_ℤ num uid || on_list uid ul

unfoldable pub conf_right : List ℤ → ℤ → ℤ → ℤ → ℤ
conf_right ul uid type cr_num =
    let access = conf_access_type type in
    if ltb_ℤ access (pos 0)
    then failure
    else if eqb_ℤ cr_num uid
    then pos 0
    else if on_list uid ul
    then (if is access 0 then pos 1 else pos 0)
    else access

abbrev pub confrc_line : Bytes → Option Bytes → (Bytes → List ℤ) → List ℤ
confrc_line buf none next = []
confrc_line buf (some rest) next = atoi buf ∷ next rest

-- one round for each line; what follows the last newline is not read
unfoldable pub confrc_loop : ℕ → Bytes → List ℤ
confrc_loop zero buf = []
confrc_loop (suc f) buf = confrc_line buf (strchr_next buf b'\n') (confrc_loop f)

unfoldable pub get_confrc_users : Bytes → List ℤ
get_confrc_users buf = confrc_loop (length buf) buf

-- get_confrc_struct; NULL is the empty list, as conf_right reads it
unfoldable pub get_confrc_struct : Calls → ℤ → Bytes → List ℤ
get_confrc_struct calls num file =
    if leb_ℤ num (pos 0)
    then []
    else if open_file calls
    then elim (read_file calls file) [
      | none ↦ []
      | some buf ↦ if close_file calls then get_confrc_users buf else []
    ]
    else []

-- `(right < 2) && (right >= 0)`
abbrev pub may_look : ℤ → Bool
may_look right = ltb_ℤ right (pos 2) && leb_ℤ (pos 0) right

-- the rest of can_see_conf after member_of, whose -1 counts as a membership
abbrev pub see_member : Calls → ℤ → ℕ → ℤ → ℤ → Bytes → Option ℤ → Option Bool
see_member calls u_num c_num t_num cr_num confrc none = none
see_member calls u_num c_num t_num cr_num confrc (some member) =
    if eqb_ℤ member (pos 0)
    then some
        (may_look (conf_right (get_confrc_struct calls (pos c_num) confrc) u_num t_num cr_num))
    else some true

-- can_see_conf: `confs` is the user's own file, `confrc` the conference's; `none` is a fault of member_of
unfoldable pub can_see_conf : Calls → ℤ → ℕ → ℤ → ℤ → Bytes → Bytes → Option Bool
can_see_conf calls u_num c_num t_num cr_num confs confrc =
    let access = conf_access_type t_num in
    if ltb_ℤ access (pos 0)
    then some false
    else if not (is access 2)
    then some true
    else if eqb_ℤ cr_num u_num
    then some true
    else see_member calls u_num c_num t_num cr_num confrc (member_of calls c_num confs)
