-- ===== src/Tests/Access.antt =====
-- Types of conferences and access rights, of sklaff.h and conf.c.
use sklaffkom.Base.{◌≡◌, refl, true, some, List, [], ◌∷◌, arith, pos, not, ◌||◌, ℤ, leb_ℤ, eqb_ℤ}
use sklaffkom.RawIo.{working, working-Works}
use sklaffkom.Reading.Spec.{is_member}
use sklaffkom.Access.{can_see_conf, conf_access_type, conf_make_type, is, on_list}
use sklaffkom.Access.Rights.{render_users, can_see_conf-sees}
use sklaffkom.Tests.{first, second, both-AllWellFormed, file}

abbrev listed : List ℤ
listed = pos 12 ∷ pos 40 ∷ []

six_known : leb_ℤ (pos 0) (conf_access_type (pos 6)) ≡ true
unfolding conf_access_type
six_known = refl

-- conference 2 is secret, user 40 no member but on its list
can_see_conf-sees_example :
    can_see_conf working (pos 40) 2 (pos 6) (pos 3) file (render_users listed)
    ≡ some (
        not (is (conf_access_type (pos 6)) 2)
        || eqb_ℤ (pos 3) (pos 40)
        || is_member 2 (first ∷ second ∷ [])
        || on_list (pos 40) listed)
can_see_conf-sees_example =
    can_see_conf-sees working (pos 40) (pos 6) (pos 3) 1 (first ∷ second ∷ []) listed working-Works
      both-AllWellFormed (omega arith, (omega arith, tt)) six_known

made_known : leb_ℤ (pos 0) (conf_make_type (pos 4) (pos 1)) ≡ true
unfolding conf_make_type
made_known = refl
