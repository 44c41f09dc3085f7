-- ===== src/Users/Lookups/Results.antt =====
-- The functions that look users up, on the whole USER_FILE.
use sklaffkom.Base.{
  false, ◌≡◌, refl, Option, none, some, List, Bytes, All, if◌then◌else◌, ℤ, pos, negsuc, failure,
  eqb_ℤ, find_first, find_first-Split, find_rest-none, Option-cases, inl, inr, Bool-cases,
}
use sklaffkom.Libc.{same_string}
use sklaffkom.RawIo.{Calls, Works, open_file-Works, read_file-Works}
use sklaffkom.Records.Files.{file_of, read_until-file_of}
use sklaffkom.Users.Lookups.Codec.{IsStored, user_format}
use sklaffkom.Users.Lookups.{
  has_number, get_user_struct, name_of, user_name, session_of, last_session, user_uid,
}
use sklaffkom.Users.{UserEntry}

-- The file of these entries.
abbrev pub user_file : List UserEntry → Bytes
user_file = file_of user_format

-- the first entry of a number, and of a name
abbrev pub entry_of : ℤ → List UserEntry → Option UserEntry
entry_of uid = find_first (has_number uid)

abbrev pub entry_named : Bytes → List UserEntry → Option UserEntry
entry_named name = find_first (λ ue. same_string name ue.name)

abbrev pub number_of : Option UserEntry → ℤ
number_of none = failure
number_of (some ue) = ue.num

module _ (calls : Calls) (works : Works calls) (es : List UserEntry)
    (stored : All IsStored es) where
  module _ (uid : ℤ) (nonzero : eqb_ℤ uid (pos 0) ≡ false) where
    struct_is : get_user_struct calls uid (user_file es) ≡ some (entry_of uid es)
    unfolding get_user_struct
    struct_is = elim (Option-cases (entry_of uid es)) [
      | inl h ↦
          rw
            (
              open_file-Works works,
              read_file-Works works,
              get_user_struct,
              works.closes,
              read_until-file_of user_format (has_number uid) es stored,
              find_rest-none (has_number uid) es h,
              nonzero,
              h,
            )
            refl
      | inr (ue, h) ↦
          rw
            (
              open_file-Works works,
              read_file-Works works,
              get_user_struct,
              works.closes,
              read_until-file_of user_format (has_number uid) es stored,
              (find_first-Split (has_number uid) es ue h).rest_is,
              h,
            )
            refl
    ]

    session_is : last_session calls uid (user_file es) ≡ some (session_of (entry_of uid es))
    unfolding last_session
    session_is = elim (Option-cases (entry_of uid es)) [
      | inl h ↦
          rw
            (
              open_file-Works works,
              read_file-Works works,
              last_session,
              works.closes,
              read_until-file_of user_format (has_number uid) es stored,
              find_rest-none (has_number uid) es h,
              nonzero,
              h,
            )
            refl
      | inr (ue, h) ↦
          rw
            (
              open_file-Works works,
              read_file-Works works,
              last_session,
              works.closes,
              read_until-file_of user_format (has_number uid) es stored,
              (find_first-Split (has_number uid) es ue h).rest_is,
              h,
            )
            refl
    ]

  uid_is :
      (name : Bytes) → user_uid calls name (user_file es) ≡ some (number_of (entry_named name es))
  unfolding user_uid
  uid_is name =
      let is = λ (ue : UserEntry). same_string name ue.name in
      elim (Option-cases (entry_named name es)) [
        | inl h ↦
            rw
              (
                open_file-Works works,
                read_file-Works works,
                user_uid,
                works.closes,
                read_until-file_of user_format is es stored,
                find_rest-none is es h,
                h,
              )
              refl
        | inr (ue, h) ↦
            rw
              (
                open_file-Works works,
                read_file-Works works,
                user_uid,
                works.closes,
                read_until-file_of user_format is es stored,
                (find_first-Split is es ue h).rest_is,
                h,
              )
              refl
      ]

-- The functions that look a user up, on the bytes of a file of entries that fit their types and whose names
-- have no space at their ends, where every system call succeeds. For a number other than 0,
-- get_user_struct returns the first entry of that number, or NULL, and last_session its time, or 0;
-- user_name returns its name, or NULL, but the name of the operator for -2. user_uid returns the number of
-- the first entry of a name, or -1.
pub user_name-lookups :
    (calls : Calls) (sysop : Bytes) (uid : ℤ) (name : Bytes) (es : List UserEntry)
    → Works calls
    → All IsStored es
    → eqb_ℤ uid (pos 0) ≡ false
    → (get_user_struct calls uid (user_file es) ≡ some (entry_of uid es))
      × (last_session calls uid (user_file es) ≡ some (session_of (entry_of uid es)))
      × (user_name sysop calls uid (user_file es)
          ≡ some (if eqb_ℤ uid (negsuc 1) then some sysop else name_of (entry_of uid es)))
      × (user_uid calls name (user_file es) ≡ some (number_of (entry_named name es)))
unfolding user_name
user_name-lookups calls sysop uid name es works stored nonzero = (
  struct_is calls works es stored uid nonzero,
  session_is calls works es stored uid nonzero,
  elim (Bool-cases (eqb_ℤ uid (negsuc 1))) [
    | inl system ↦ rw (nonzero, system) refl
    | inr user ↦ rw (nonzero, user, struct_is calls works es stored uid nonzero) refl
  ],
  uid_is calls works es stored name,
)
