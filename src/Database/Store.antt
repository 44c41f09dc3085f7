-- ===== src/Database/Store.antt =====
-- conf_store_entry, get_conf_struct, is_conf_creator and last_text (conf.c) on a whole file.
use sklaffkom.Base.{
  Bool, true, false, ◌&&◌, ◌≡◌, Option, none, some, List, ◌++◌, arith, All, drop, length, Bytes,
  if◌then◌else◌, ℤ, pos, failure, Option-cases, inl, inr, Bool-cases,
}
use sklaffkom.Database.Codec.{Fits}
use sklaffkom.Database.Search.{
  database, conf_of, put_conf, IsShort, overflows, put_conf-none, replace_conf-missing,
  replace_conf-database,
}
use sklaffkom.Database.{ConfEntry, conf_store_entry, replace_conf}
use sklaffkom.RawIo.{Calls, open_file, read_file, write_file, close_file}

abbrev pub is_there : Option ConfEntry → Bool
is_there none = false
is_there (some e) = true

-- Does the database have the conference?
abbrev pub has_conf : ℤ → List ConfEntry → Bool
has_conf conf es = is_there (conf_of conf es)

-- Are the new bytes written?
abbrev pub writes_all : Calls → Bool
writes_all calls = open_file calls && calls.reads && calls.seeks && calls.writes

-- the bytes of the file behind the new ones, where they are not cut off
abbrev pub leftover : Bytes → Bytes → Bytes
leftover new old = new ++ drop (length new) old

store_missing :
    (calls : Calls) (ce : ConfEntry) (es : List ConfEntry)
    → All Fits es
    → conf_of ce.num es ≡ none
    → conf_store_entry calls ce (database es) ≡ some (failure, database es)
unfolding conf_store_entry read_file
store_missing calls ce es fits h = ground (arith, replace_conf-missing ce es fits h)

store_present :
    (calls : Calls) (ce old : ConfEntry) (es : List ConfEntry)
    → All Fits es
    → IsShort ce
    → conf_of ce.num es ≡ some old
    → conf_store_entry calls ce (database es) ≡ (
        if open_file calls && calls.reads && overflows ce es
        then none
        else some (
          if writes_all calls && calls.truncates && close_file calls then pos 0 else failure,
          if writes_all calls
              then (if calls.truncates
                  then database (put_conf ce es)
                  else leftover (database (put_conf ce es)) (database es))
              else database es,
        ))
unfolding conf_store_entry read_file write_file
store_present calls ce old es fits short h =
    let replaced = replace_conf-database ce old es fits short h in
    elim (Bool-cases (overflows ce es)) [
      | inl long ↦
          let overflown : replace_conf ce (database es) ≡ none = rw long at replaced in
          rw long (ground (arith, overflown))
      | inr short_enough ↦
          let held : replace_conf ce (database es) ≡ some (some (database (put_conf ce es))) =
            rw short_enough at replaced in
          rw short_enough (ground (arith, held))
    ]

-- an entry that is not there does not make the file longer
overflows-missing :
    (ce : ConfEntry) (es : List ConfEntry) → conf_of ce.num es ≡ none → overflows ce es ≡ false
overflows-missing ce es h = rw (put_conf-none ce es h) (ground arith)

-- conf_store_entry on the bytes of a database whose entries fit their types, whatever its system calls
-- do, for an entry of a line of at most 158 bytes. Where it can open and read the file, and the new
-- entry would make it longer by 79 bytes or more, it writes behind the buffer of replace_conf, `none`.
-- Else it returns 0 exactly when the conference is in the database and every call it needs succeeds,
-- and -1 otherwise. The file then holds the new entry in the place of the old one; it is left as it
-- was unless the new bytes were written; and where only the cut of the file failed, the new bytes are
-- followed by what was left of the old ones.
pub conf_store_entry-database :
    (calls : Calls) (ce : ConfEntry) (es : List ConfEntry)
    → All Fits es
    → IsShort ce
    → conf_store_entry calls ce (database es) ≡ (
        if open_file calls && calls.reads && overflows ce es
        then none
        else some (
          if has_conf ce.num es && writes_all calls && calls.truncates && close_file calls
              then pos 0
              else failure,
          if has_conf ce.num es && writes_all calls
              then (if calls.truncates
                  then database (put_conf ce es)
                  else leftover (database (put_conf ce es)) (database es))
              else database es,
        ))
conf_store_entry-database calls ce es fits short = elim (Option-cases (conf_of ce.num es)) [
  | inl h ↦
      let room = overflows-missing ce es h in
      let never : (open_file calls && calls.reads && overflows ce es) ≡ false =
        rw room (ground arith) in
      rw (never, h) (store_missing calls ce es fits h)
  | inr (old, h) ↦ rw h (store_present calls ce old es fits short h)
]
