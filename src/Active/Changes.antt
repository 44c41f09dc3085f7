-- ===== src/Active/Changes.antt =====
-- The functions of user.c on the whole ACTIVE_FILE.
use sklaffkom.Active.Codec.{Fits, active_format, active_line-text}
use sklaffkom.Active.{ActiveEntry, is_user, find_active, replace_active, change_active}
use sklaffkom.Base.{
  ◌≡◌, refl, ap, ◌∙◌, Option, none, some, List, Bytes, All, ℤ, pos, find_first, replace_first,
  find_first-Split, find_rest-none,
}
use sklaffkom.RawIo.{Calls, Works, open_file-Works, read_file-Works, write_file-Works}
use sklaffkom.Records.Files.{
  file_of, as_read, read_until-file_of, before_entry-file_of, replace_first-file_of,
}

-- The file of these entries, and the first entry of a user.
abbrev pub actives : List ActiveEntry → Bytes
actives = file_of active_format

abbrev pub entry_of : ℤ → List ActiveEntry → Option ActiveEntry
entry_of uid = find_first (is_user uid)

module _ (es : List ActiveEntry) (fits : All Fits es) where
  pub found_at :
      (uid : ℤ) (old : ActiveEntry)
      → (h : entry_of uid es ≡ some old)
      → find_active uid (actives es)
        ≡ some (some (old, actives (find_first-Split (is_user uid) es old h).post))
  found_at uid old h =
      read_until-file_of active_format (is_user uid) es fits
      ∙ ap (λ r. some (as_read active_format r)) (find_first-Split (is_user uid) es old h).rest_is

  pub not_found : (uid : ℤ) → entry_of uid es ≡ none → find_active uid (actives es) ≡ some none
  not_found uid h =
      read_until-file_of active_format (is_user uid) es fits
      ∙ ap (λ r. some (as_read active_format r)) (find_rest-none (is_user uid) es h)

  replace_active-actives :
      (ae old : ActiveEntry)
      → entry_of ae.user es ≡ some old
      → replace_active ae (actives es) ≡ some (actives (replace_first (is_user ae.user) ae es))
  unfolding replace_active
  replace_active-actives ae old h =
      let post = (find_first-Split (is_user ae.user) es old h).post in
      rw
        (
          found_at ae.user old h,
          before_entry-file_of active_format (is_user ae.user) es old fits h,
          active_line-text ae (actives post),
        )
        (ap some (replace_first-file_of active_format (is_user ae.user) es old ae h))

  module _ {calls : Calls} (works : Works calls) (uid : ℤ) where
    pub change_active-actives :
        (change : ActiveEntry → ActiveEntry) (old : ActiveEntry)
        → entry_of uid es ≡ some old
        → (change old).user ≡ uid
        → change_active calls uid change (actives es)
          ≡ some (pos 0, actives (replace_first (is_user uid) (change old) es))
    unfolding change_active
    change_active-actives change old h same =
        let here : entry_of (change old).user es ≡ some old = ap (λ u. entry_of u es) same ∙ h in
        rw
          (
            open_file-Works works,
            read_file-Works works,
            change_active,
            found_at uid old h,
            replace_active-actives (change old) old here,
            write_file-Works works,
            same,
          )
          refl
