-- ===== src/Tests/Users.antt =====
-- The file of all users, of user.c.
use sklaffkom.Users.Renamed.{set_sklaff_user_name-user_name}
use sklaffkom.Base.{◌≡◌, refl, true, some, [], ◌∷◌, arith, pos, codes, ℤ, Bytes, false, eqb_ℤ}
use sklaffkom.RawIo.{working, working-Works}
use sklaffkom.Users.{UserEntry, realname_valid, set_sklaff_user_name}
use sklaffkom.Users.Lines
use sklaffkom.Users.Lookups.{get_user_struct, last_session, user_name, user_uid, rtrim, drop_blanks}
use sklaffkom.Users.Lookups.Codec.{IsStored}
use sklaffkom.Users.Lookups.Results.{user_file, user_name-lookups}
use sklaffkom.Users.Renaming.{set_sklaff_user_name-users}
use sklaffkom.Users.Scan.{users}

-- two users, with the numbers and the sessions of the file
abbrev cecilia : UserEntry
cecilia = record { num = pos 501; last_session = pos 1700000000; name = codes "Cecilia" }

abbrev david : UserEntry
david = record { num = pos 502; last_session = pos 0; name = codes "David" }

cecilia-Fits : Lines.Fits cecilia
cecilia-Fits = record {
  number = 501;
  num_is = refl;
  num = omega arith;
  session = 1700000000;
  session_is = refl;
  last_session = omega arith;
  name = (refl, (refl, (refl, (refl, (refl, (refl, (refl, tt)))))));
}

david-Fits : Lines.Fits david
david-Fits = record {
  number = 502;
  num_is = refl;
  num = omega arith;
  session = 0;
  session_is = refl;
  last_session = omega arith;
  name = (refl, (refl, (refl, (refl, (refl, tt)))));
}

dave-valid : realname_valid (codes "Dave") ≡ true
unfolding realname_valid
dave-valid = refl

set_sklaff_user_name-users_example :
    set_sklaff_user_name working (pos 502) (codes "Dave") (users (cecilia ∷ david ∷ []))
    ≡ some (pos 0, users (cecilia ∷ record david { name = codes "Dave" } ∷ []))
set_sklaff_user_name-users_example =
    set_sklaff_user_name-users working 502 (codes "Dave") (cecilia ∷ david ∷ []) working-Works
      (cecilia-Fits, (david-Fits, tt)) (omega arith) (omega arith) dave-valid

cecilia-IsStored : IsStored cecilia
unfolding rtrim drop_blanks
cecilia-IsStored = record {
  num = omega arith;
  last_session = omega arith;
  name = (refl, (refl, (refl, (refl, (refl, (refl, (refl, tt)))))));
  trimmed = refl;
}

david-IsStored : IsStored david
unfolding rtrim drop_blanks
david-IsStored = record {
  num = omega arith;
  last_session = omega arith;
  name = (refl, (refl, (refl, (refl, (refl, tt)))));
  trimmed = refl;
}

user_name-lookups_example :
    (get_user_struct working (pos 502) (user_file (cecilia ∷ david ∷ [])) ≡ some (some david))
    × (last_session working (pos 502) (user_file (cecilia ∷ david ∷ [])) ≡ some (pos 0))
    × (user_name (codes "Sysop") working (pos 502) (user_file (cecilia ∷ david ∷ []))
        ≡ some (some (codes "David")))
    × (user_uid working (codes "Cecilia") (user_file (cecilia ∷ david ∷ [])) ≡ some (pos 501))
user_name-lookups_example =
    user_name-lookups working (codes "Sysop") (pos 502) (codes "Cecilia") (cecilia ∷ david ∷ [])
      working-Works (cecilia-IsStored, (david-IsStored, tt)) refl

set_sklaff_user_name-user_name_example :
    (file : Bytes) × (set_sklaff_user_name working
        (pos 502)
        (codes "Dave")
        (user_file (cecilia ∷ david ∷ []))
      ≡ some (pos 0, file))
    × (user_name (codes "Sysop") working (pos 502) file ≡ some (some (codes "Dave")))
    × ((k : ℤ)
        → eqb_ℤ k (pos 0) ≡ false
        → eqb_ℤ (pos 502) k ≡ false
        → user_name (codes "Sysop") working k file
          ≡ user_name (codes "Sysop") working k (user_file (cecilia ∷ david ∷ [])))
unfolding rtrim drop_blanks
set_sklaff_user_name-user_name_example =
    set_sklaff_user_name-user_name working (codes "Sysop") 502 (codes "Dave") (cecilia ∷ david ∷ [])
      working-Works (cecilia-Fits, (david-Fits, tt)) (cecilia-IsStored, (david-IsStored, tt))
      (omega arith) (omega arith) refl dave-valid refl
