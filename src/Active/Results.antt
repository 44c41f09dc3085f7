-- ===== src/Active/Results.antt =====
-- The functions of user.c on ACTIVE_FILE, with what they return.

use sklaffkom.Active.Codec.{Fits, active_format}
use sklaffkom.Active.{
  ActiveEntry, is_user, set_avail, set_from, remove_active, check_active, some_active,
  user_is_active, user_is_avail,
}
use sklaffkom.Base.{
  Bool, true, false, ◌&&◌, ◌≡◌, refl, ap, ◌∙◌, some, List, Bytes, All, take, ℤ, pos, eqb_ℤ,
  find_first, replace_first, remove_first, find_first-Split, find_rest-none, Option-cases, inl, inr,
  eqb_ℤ-refl,
}
use sklaffkom.Active.Changes.{actives, entry_of, found_at, not_found, change_active-actives}
use sklaffkom.Active.Entries.{
  is_some, user_of, remove_first-none, replaced_entry, replaced-Fits, entry-Fits,
}
use sklaffkom.Libc.Decimal.{IsInt, Lacks}
use sklaffkom.RawIo.{Calls, Works, open_file-Works, read_file-Works, write_file-Works}
use sklaffkom.Records.Files.{read_until-file_of, before_entry-file_of, remove_first-file_of}

module _ (calls : Calls) (works : Works calls) (uid : ℤ) (es : List ActiveEntry)
    (fits : All Fits es) where
  pub check_active-actives : check_active calls uid (actives es) ≡ some (entry_of uid es)
  unfolding check_active
  check_active-actives = elim (Option-cases (entry_of uid es)) [
    | inl h ↦
        rw
          (
            open_file-Works works,
            read_file-Works works,
            check_active,
            works.closes,
            not_found es fits uid h,
            h,
          )
          refl
    | inr (ae, h) ↦
        rw
          (
            open_file-Works works,
            read_file-Works works,
            check_active,
            works.closes,
            found_at es fits uid ae h,
            h,
          )
          refl
  ]

  some_active-actives :
      (is : ActiveEntry → Bool)
      → some_active calls is (actives es) ≡ some (is_some (find_first is es))
  unfolding some_active
  some_active-actives is = elim (Option-cases (find_first is es)) [
    | inl h ↦
        rw
          (
            open_file-Works works,
            read_file-Works works,
            some_active,
            works.closes,
            read_until-file_of active_format is es fits,
            find_rest-none is es h,
            h,
          )
          refl
    | inr (ae, h) ↦
        rw
          (
            open_file-Works works,
            read_file-Works works,
            some_active,
            works.closes,
            read_until-file_of active_format is es fits,
            (find_first-Split is es ae h).rest_is,
            h,
          )
          refl
  ]

-- check_active, user_is_active and user_is_avail on the bytes of a file whose entries fit their types, where
-- every system call succeeds: check_active returns the first entry of the user, or NULL;
-- user_is_active tells whether there is one, and user_is_avail whether there is one that is available.
pub check_active-lookups :
    (calls : Calls) (uid : ℤ) (es : List ActiveEntry)
    → Works calls
    → All Fits es
    → (check_active calls uid (actives es) ≡ some (entry_of uid es))
      × (user_is_active calls uid (actives es) ≡ some (is_some (entry_of uid es)))
      × (user_is_avail calls uid (actives es)
          ≡ some (is_some (find_first (λ ae. is_user uid ae && eqb_ℤ ae.avail (pos 0)) es)))
check_active-lookups calls uid es works fits = (
  check_active-actives calls works uid es fits,
  some_active-actives calls works uid es fits (is_user uid),
  some_active-actives calls works uid es fits (λ ae. is_user uid ae && eqb_ℤ ae.avail (pos 0)),
)

-- set_avail and set_from on the bytes of a file whose entries fit their types, where every system call
-- succeeds and the user has an entry: they return 0, and the file holds the same entries with the new
-- flag, or the first 27 bytes of the new string, in the first entry of the user. The flag fits an int,
-- and no colon or line feed is in these bytes: check_active then gives the user's entry with the new
-- flag after set_avail, and with the new string after set_from.
pub set_avail-actives :
    (calls : Calls) (uid value : ℤ) (from : Bytes) (ae : ActiveEntry) (es : List ActiveEntry)
    → Works calls
    → All Fits es
    → IsInt value
    → Lacks b':' (take 27 from)
    → Lacks b'\n' (take 27 from)
    → entry_of uid es ≡ some ae
    → (set_avail calls uid value (actives es)
        ≡ some (pos 0, actives (replace_first (is_user uid) (record ae { avail = value }) es)))
      × (set_from calls uid from (actives es)
          ≡ some
              (pos 0, actives (replace_first (is_user uid) (record ae { from = take 27 from }) es)))
      × (check_active calls uid
            (actives (replace_first (is_user uid) (record ae { avail = value }) es))
          ≡ some (some (record ae { avail = value })))
      × (check_active calls uid
            (actives (replace_first (is_user uid) (record ae { from = take 27 from }) es))
          ≡ some (some (record ae { from = take 27 from })))
set_avail-actives calls uid value from ae es works fits int no_colon no_feed h =
    let user = user_of uid es ae h in
    let old = entry-Fits uid ae es fits h in
    let new : ActiveEntry = record ae { avail = value } in
    let new_fits : Fits new = record {
      user = old.user;
      pid = old.pid;
      login_time = old.login_time;
      avail = int;
      from = old.from;
      from_line = old.from_line;
      tty = old.tty;
      tty_line = old.tty_line;
    } in
    let moved : ActiveEntry = record ae { from = take 27 from } in
    let moved_fits : Fits moved = record {
      user = old.user;
      pid = old.pid;
      login_time = old.login_time;
      avail = old.avail;
      from = no_colon;
      from_line = no_feed;
      tty = old.tty;
      tty_line = old.tty_line;
    } in
    let is : is_user uid new ≡ true = ap (λ u. eqb_ℤ u uid) user ∙ eqb_ℤ-refl uid in
    (
      change_active-actives es fits works uid (λ e. record e { avail = value }) ae h user,
      change_active-actives es fits works uid (λ e. record e { from = take 27 from }) ae h user,
      check_replaced new new_fits is,
      check_replaced moved moved_fits is,
    )
  where
    check_replaced :
        (new : ActiveEntry)
        → Fits new
        → is_user uid new ≡ true
        → check_active calls uid (actives (replace_first (is_user uid) new es)) ≡ some (some new)
    check_replaced new new_fits is =
        check_active-actives calls works uid (replace_first (is_user uid) new es)
          (replaced-Fits uid new es new_fits fits)
        ∙ ap some (replaced_entry uid new ae es h is)

-- remove_active on the bytes of a file whose entries fit their types, where every system call succeeds, for
-- a user other than 0: it returns 0, and the file holds the entries without the user's first one.
pub remove_active-actives :
    (calls : Calls) (uid : ℤ) (es : List ActiveEntry)
    → Works calls
    → All Fits es
    → eqb_ℤ uid (pos 0) ≡ false
    → remove_active calls uid (actives es) ≡ some (pos 0, actives (remove_first (is_user uid) es))
unfolding remove_active
remove_active-actives calls uid es works fits nonzero = elim (Option-cases (entry_of uid es)) [
  | inl h ↦
      rw
        (
          open_file-Works works,
          read_file-Works works,
          remove_active,
          not_found es fits uid h,
          nonzero,
          works.closes,
          remove_first-none uid es h,
        )
        refl
  | inr (ae, h) ↦
      rw
        (
          open_file-Works works,
          read_file-Works works,
          remove_active,
          found_at es fits uid ae h,
          before_entry-file_of active_format (is_user uid) es ae fits h,
          remove_first-file_of active_format (is_user uid) es ae h,
          write_file-Works works,
          works.closes,
        )
        refl
]
