-- ===== src/Mail.antt =====
-- mailbody.c: the best readable part of a mail message, as UTF-8 text. The children are the transfer
-- decoders, the header fields, the choice of a part, the cleaning of tracking links and of blank
-- space, and the function that puts them together. This file has the string helpers at the top of
-- the source. A failing malloc, where the program exits, is left out.
pub mod Transfer
pub mod Urls
pub mod Headers
pub mod Parts
pub mod Cleanup
pub mod Render
use sklaffkom.Base.{
  ℕ, Bool, true, false, ◌&&◌, Option, none, some, [], ◌∷◌, Bytes, is_empty, ◌==◌, if◌then◌else◌,
}
use sklaffkom.Libc.{skip_spaces, tolower, isspace}

-- whether `s` starts with `key`, where case does not count; the NUL behind `s` is no letter of `key`
abbrev pub ci_equal_n : Bytes → Bytes → Bool
ci_equal_n s [] = true
ci_equal_n [] (k ∷ key) = false
ci_equal_n (c ∷ s) (k ∷ key) = tolower c == tolower k && ci_equal_n s key

unfoldable pub ci_strstr : Bytes → Bytes → Option Bytes
ci_strstr [] key = if is_empty key then some [] else none
ci_strstr (c ∷ s) key =
    let further = ci_strstr s key in if ci_equal_n (c ∷ s) key then some (c ∷ s) else further

-- whether ci_strstr finds `key`
unfoldable pub contains : Bytes → Bytes → Bool
unfolding ci_strstr
contains s key = elim (ci_strstr s key) [ none ↦ false | some found ↦ true ]

-- the string without the bytes at its end that pass the test
unfoldable pub drop_back : (ℕ → Bool) → Bytes → Bytes
drop_back test [] = []
drop_back test (c ∷ s) =
    let rest = drop_back test s in if test c && is_empty rest then [] else c ∷ rest

unfoldable pub trim : Bytes → Bytes
unfolding skip_spaces drop_back
trim s = drop_back (λ c. isspace c) (skip_spaces s)
