-- ===== src/Tests/Commands.antt =====
-- The words of a command: wc.c, up_string.c and parse_string.c.
use sklaffkom.Base.{ℕ, pos, none, some, codes, refl, ◌≡◌}
use sklaffkom.Users.Lookups.{rtrim, drop_blanks}
use sklaffkom.Commands.{wc, up_string, parse_strings}
use sklaffkom.Commands.SameName.{parse_strings-wc}

bracket-words : wc (codes "Ny (eller) text") ≡ some (pos 2)
unfolding wc
bracket-words = refl

abbreviated :
    parse_strings (codes "Lista (alla) namn") (codes "li na 12 ") (pos 2)
    ≡ some (2, some (codes "12"))
unfolding parse_strings drop_blanks
abbreviated = refl

unclosed : wc (codes "Ny (eller") ≡ none
unfolding wc
unclosed = refl

parse_strings-wc_example :
    (n : ℕ) × (parse_strings (codes "lista namn") (codes "Lista Namn ") (pos 1) ≡ some (n, none))
    × (wc (up_string (rtrim (codes "lista namn"))) ≡ some (pos n))
unfolding up_string rtrim drop_blanks
parse_strings-wc_example =
    parse_strings-wc (codes "lista namn") (codes "Lista Namn ") (pos 1) refl
      (refl, (refl, (refl, (refl, (refl, (refl, (refl, (refl, (refl, (refl, tt))))))))))
