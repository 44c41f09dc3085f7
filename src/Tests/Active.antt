-- ===== src/Tests/Active.antt =====
-- The file of the users who are logged in, of user.c.
use sklaffkom.Active.{
  ActiveEntry, set_avail, set_from, remove_active, check_active, user_is_active, user_is_avail,
}
use sklaffkom.Active.Changes.{actives}
use sklaffkom.Active.Codec.{Fits}
use sklaffkom.Active.Results.{check_active-lookups, set_avail-actives, remove_active-actives}
use sklaffkom.Base.{◌≡◌, refl, true, false, some, [], ◌∷◌, arith, pos, All, codes, List}
use sklaffkom.RawIo.{working, working-Works}

abbrev anna : ActiveEntry
anna = record {
  user = pos 501;
  pid = pos 1234;
  login_time = pos 1700000000;
  avail = pos 0;
  from = codes "*lab";
  tty = codes "pts";
}

abbrev bo : ActiveEntry
bo = record anna { user = pos 502; avail = pos 1 }

anna-Fits : Fits anna
anna-Fits = record {
  user = omega arith;
  pid = omega arith;
  login_time = omega arith;
  avail = omega arith;
  from = (refl, (refl, (refl, (refl, tt))));
  from_line = (refl, (refl, (refl, (refl, tt))));
  tty = (refl, (refl, (refl, tt)));
  tty_line = (refl, (refl, (refl, tt)));
}

bo-Fits : Fits bo
bo-Fits = record {
  user = omega arith;
  pid = omega arith;
  login_time = omega arith;
  avail = omega arith;
  from = (refl, (refl, (refl, (refl, tt))));
  from_line = (refl, (refl, (refl, (refl, tt))));
  tty = (refl, (refl, (refl, tt)));
  tty_line = (refl, (refl, (refl, tt)));
}

abbrev online : List ActiveEntry
online = anna ∷ bo ∷ []

online-Fits : All Fits online
online-Fits = (anna-Fits, (bo-Fits, tt))

check_active-lookups_example :
    (check_active working (pos 502) (actives online) ≡ some (some bo))
    × (user_is_active working (pos 502) (actives online) ≡ some true)
    × (user_is_avail working (pos 502) (actives online) ≡ some false)
check_active-lookups_example =
    check_active-lookups working (pos 502) online working-Works online-Fits

set_avail-actives_example :
    (set_avail working (pos 502) (pos 0) (actives online)
      ≡ some (pos 0, actives (anna ∷ record bo { avail = pos 0 } ∷ [])))
    × (set_from working (pos 502) (codes "home") (actives online)
        ≡ some (pos 0, actives (anna ∷ record bo { from = codes "home" } ∷ [])))
    × (check_active working (pos 502) (actives (anna ∷ record bo { avail = pos 0 } ∷ []))
        ≡ some (some (record bo { avail = pos 0 })))
    × (check_active working (pos 502) (actives (anna ∷ record bo { from = codes "home" } ∷ []))
        ≡ some (some (record bo { from = codes "home" })))
set_avail-actives_example =
    set_avail-actives working (pos 502) (pos 0) (codes "home") bo online working-Works online-Fits
      (omega arith) (refl, (refl, (refl, (refl, tt)))) (refl, (refl, (refl, (refl, tt)))) refl

remove_active-actives_example :
    remove_active working (pos 501) (actives online) ≡ some (pos 0, actives (bo ∷ []))
remove_active-actives_example =
    remove_active-actives working (pos 501) online working-Works online-Fits refl
