-- ===== src/Database/Lookups.antt =====
-- get_conf_struct, is_conf_creator and last_text (conf.c) on a whole file.
use sklaffkom.Base.{
  false, ◌≡◌, Option, none, some, List, All, Bytes, ℤ, pos, failure, eqb_ℤ, Option-cases, inl, inr,
  refl,
}
use sklaffkom.Database.Codec.{Fits}
use sklaffkom.Database.Search.{database, conf_of, has_num, find_conf-database}
use sklaffkom.Database.{
  ConfEntry, get_conf_struct, is_creator, is_conf_creator, last_in_database, last_text,
}
use sklaffkom.RawIo.{Calls, Works, open_file-Works, read_file-Works}
use sklaffkom.Base.{find_first-Split, find_rest-none}

-- what last_text returns for an entry
abbrev pub last_or_error : Option ConfEntry → ℤ
last_or_error none = failure
last_or_error (some ce) = ce.last_text

module _ (calls : Calls) (works : Works calls) (num : ℤ) (es : List ConfEntry) (fits : All Fits es)
    (nonzero : eqb_ℤ num (pos 0) ≡ false) where
  struct_is : get_conf_struct calls num (database es) ≡ some (conf_of num es)
  unfolding get_conf_struct
  struct_is = elim (Option-cases (conf_of num es)) [
    | inl h ↦
        rw
          (
            open_file-Works works,
            read_file-Works works,
            get_conf_struct,
            works.closes,
            find_conf-database num es fits,
            find_rest-none (has_num num) es h,
            h,
            nonzero,
          )
          refl
    | inr (ce, h) ↦
        rw
          (
            open_file-Works works,
            read_file-Works works,
            get_conf_struct,
            works.closes,
            find_conf-database num es fits,
            (find_first-Split (has_num num) es ce h).rest_is,
            h,
          )
          refl
  ]

  last_is : last_in_database calls num (database es) ≡ some (last_or_error (conf_of num es))
  unfolding last_in_database
  last_is = elim (Option-cases (conf_of num es)) [
    | inl h ↦
        rw
          (
            open_file-Works works,
            read_file-Works works,
            last_in_database,
            works.closes,
            find_conf-database num es fits,
            find_rest-none (has_num num) es h,
            h,
          )
          refl
    | inr (ce, h) ↦
        rw
          (
            open_file-Works works,
            read_file-Works works,
            last_in_database,
            works.closes,
            find_conf-database num es fits,
            (find_first-Split (has_num num) es ce h).rest_is,
            h,
          )
          refl
  ]

  -- The functions that look a conference up, on the bytes of a database whose entries fit their types,
  -- where every system call on CONF_FILE succeeds, for a number other than 0: get_conf_struct returns the
  -- first entry of that number, or NULL; is_conf_creator tells whether the user is its creator, and is
  -- 0 without an entry; last_text returns its last text, or -1 without an entry.
  pub get_conf_struct-database :
      (get_conf_struct calls num (database es) ≡ some (conf_of num es))
      × ((u_num : ℤ)
          → is_conf_creator calls u_num num (database es)
            ≡ some (is_creator u_num (conf_of num es)))
      × ((mbox : Calls) (mailbox : Bytes)
          → last_text mbox mailbox calls (database es) num ≡ some (last_or_error (conf_of num es)))
  unfolding is_conf_creator last_text
  get_conf_struct-database =
      (struct_is, λ u_num. rw (nonzero, struct_is) refl, λ mbox mailbox. rw (nonzero, last_is) refl)
