-- ===== src/Commands.antt =====
-- The words of a command: wc (lib/wc.c), up_string (lib/up_string.c), and parse_strings
-- (lib/parse_string.c), by which parse.c finds the command that a user typed. A position in a string is
-- the rest of the string from there. `none` is a read behind the NUL, after a bracket that is never
-- closed. The length of the string is enough fuel: each call on less fuel is on a shorter string.
pub mod Words
pub mod SameName
use sklaffkom.Base.{
  ℕ, zero, suc, ◌+◌, ◌-◌, Bool, true, false, not, ◌&&◌, ◌||◌, Option, none, some, [], ◌∷◌, Bytes,
  length, map, is_empty, ltb, leb, ◌==◌, if◌then◌else◌, ◌>>=◌, ℤ, pos, negsuc, eqb_ℤ, drop,
}
use sklaffkom.Libc.{isspace}
use sklaffkom.Users.Lookups.{rtrim}

abbrev pub is_sep : ℕ → Bool
is_sep c = isspace c || c == b'.'

abbrev pub starts : ℕ → Bytes → Bool
starts k [] = false
starts k (c ∷ s) = c == k

abbrev pub starts_sep : Bytes → Bool
starts_sep [] = false
starts_sep (c ∷ s) = is_sep c

unfoldable pub skip_seps : Bytes → Bytes
skip_seps [] = []
skip_seps (c ∷ s) = if is_sep c then skip_seps s else c ∷ s

-- skip_beyond_rpar of wc.c: what stands behind the bracket. A bracket that opens inside is passed
-- first, and the byte behind it is not looked at for another one.
unfoldable pub behind_rpar : ℕ → Bytes → Option Bytes
behind_rpar zero s = none
behind_rpar (suc f) [] = none
behind_rpar (suc f) (c ∷ s) =
    let inner = behind_rpar f s >>= behind_rpar f in
    let plain = behind_rpar f s in
    if c == b')' then some s else if starts b'(' s then inner else plain

-- words + 1, where `more` and `less` count the steps up and down
abbrev pub word_count : ℕ → ℕ → ℤ
word_count more less =
    if leb less (suc more) then pos (suc more - less) else negsuc (less - suc more - 1)

-- the loop of wc; `front` says that a separator or the start of the string is before
unfoldable pub wc_loop : ℕ → Bool → Bytes → ℕ → ℕ → Option ℤ
unfolding skip_seps behind_rpar
wc_loop zero front s more less = none
wc_loop (suc f) front [] more less = some (word_count more less)
wc_loop (suc f) front (c ∷ s) more less =
    let rest = skip_seps s in
    let spaces = wc_loop f true rest (if is_empty rest then more else suc more) less in
    let bracket =
      behind_rpar (suc (length s)) (c ∷ s) >>= (λ r. wc_loop f false r more (suc less)) in
    let letter = wc_loop f false s more less in
    if is_sep c then spaces else if c == b'(' && front then bracket else letter

unfoldable pub wc : Bytes → Option ℤ
unfolding wc_loop
wc s = wc_loop (suc (length s)) true s 0 0

abbrev pub up_byte : ℕ → ℕ
up_byte c = if ltb 0x60 c && ltb c 0x7e then c - 32 else c

unfoldable pub up_string : Bytes → Bytes
up_string s = map (λ c. up_byte c) s

unfoldable pub skip_word : Bytes → Bytes
skip_word [] = []
skip_word (c ∷ s) = if is_sep c then c ∷ s else skip_word s

-- skip_beyond_space of parse_string.c, where `rpar` is its skip_beyond_rpar
abbrev pub behind_space : (Bytes → Option Bytes) → Bytes → Option Bytes
unfolding skip_word skip_seps
behind_space rpar s =
    let r = skip_seps (skip_word s) in
    let behind = rpar r in if starts b'(' r then behind else some r

-- skip_beyond_rpar of parse_string.c, which skips the separators behind the bracket too
unfoldable pub behind_bracket : ℕ → Bytes → Option Bytes
unfolding behind_space
behind_bracket zero s = none
behind_bracket (suc f) [] = none
behind_bracket (suc f) (c ∷ s) =
    let inner = behind_bracket f s >>= behind_bracket f in
    let plain = behind_bracket f s in
    let closed = behind_space (behind_bracket f) s in
    if c == b')'
    then (if starts_sep s then closed else some s)
    else if starts b'(' s
    then inner
    else plain

unfoldable pub skip_bracket : Bytes → Option Bytes
unfolding behind_bracket
skip_bracket s =
    let behind = behind_bracket (suc (length s)) s in if starts b'(' s then behind else some s

unfoldable pub skip_space : Bytes → Option Bytes
unfolding behind_space behind_bracket
skip_space s = behind_space (behind_bracket (suc (length s))) s

-- another word, unless the string is at its end
abbrev pub next_word : Bytes → ℕ → ℕ
next_word s words = if is_empty s then words else suc words

-- the inner loop, over what the two strings have in common
unfoldable pub same_words : ℕ → Bytes → Bytes → ℕ → Option (Bytes × Bytes × ℕ)
unfolding skip_space
same_words zero a b words = none
same_words (suc f) [] b words = some ([], b, words)
same_words (suc f) (x ∷ a) [] words = some (x ∷ a, [], words)
same_words (suc f) (x ∷ a) (y ∷ b) words =
    let spaces = (do
      a2 ← skip_space (x ∷ a)
      b2 ← skip_space (y ∷ b)
      same_words f a2 b2 (next_word b2 words)) in
    let letters = same_words f a b words in
    if x == y then (if is_sep y then spaces else letters) else some (x ∷ a, y ∷ b, words)

-- the separators behind the words, in both strings
unfoldable pub both_spaces : Bytes → Bytes → ℕ → Option (Bytes × Bytes × ℕ)
unfolding skip_space
both_spaces a b words =
    let spaces = (do a2 ← skip_space a; b2 ← skip_space b; some (a2, b2, next_word b2 words)) in
    if starts_sep b then spaces else some (a, b, words)

-- behind the loop: the number of words, and where the parameters start
unfoldable pub end_match : Bytes → ℕ → Option (ℕ × Option Bytes)
unfolding skip_space
end_match b words =
    let spaces = (do b2 ← skip_space b; some (next_word b2 words, some b2)) in
    if starts_sep b then spaces else some (words, some b)

-- the tests at the end of a round
abbrev pub match_tests :
    (Bytes → Bytes → ℕ → Option (ℕ × Option Bytes))
    → ℤ
    → Bytes
    → Bytes
    → ℕ
    → Option (ℕ × Option Bytes)
unfolding end_match
match_tests again wcnt [] [] words = some (suc words, none)
match_tests again wcnt [] (y ∷ b) words = end_match (y ∷ b) words
match_tests again wcnt (x ∷ a) [] words = some (suc words, none)
match_tests again wcnt (x ∷ a) (y ∷ b) words =
    let more = again (x ∷ a) (y ∷ b) words in
    if eqb_ℤ (pos words) wcnt then end_match (y ∷ b) words else more

-- a round, behind the brackets at its start
unfoldable pub match_round :
    (Bytes → Bytes → ℕ → Option (ℕ × Option Bytes))
    → ℤ
    → Bytes
    → Bytes
    → ℕ
    → Option (ℕ × Option Bytes)
unfolding same_words skip_bracket both_spaces match_tests
match_round again wcnt [] [] words = some (suc words, none)
match_round again wcnt [] (y ∷ b) words = end_match (y ∷ b) words
match_round again wcnt (x ∷ a) b words =
    let common = (do
      (a2, b2, words2) ← same_words (suc (length (x ∷ a))) (x ∷ a) b words
      a3 ← skip_bracket a2
      b3 ← skip_bracket b2
      (a4, b4, words4) ← both_spaces a3 b3 words2
      match_tests again wcnt a4 b4 words4) in
    if starts x b then common else some (words, none)

unfoldable pub match_loop : ℕ → ℤ → Bytes → Bytes → ℕ → Option (ℕ × Option Bytes)
unfolding match_round skip_bracket
match_loop zero wcnt a b words = none
match_loop (suc f) wcnt a b words = do
  a1 ← skip_bracket a
  b1 ← skip_bracket b
  match_round (match_loop f wcnt) wcnt a1 b1 words

-- the parameters, as they stand in the typed string; `none` where `parm` is not written
abbrev pub argument : Bytes → Option Bytes → Option Bytes
argument orig none = none
argument orig (some rest) = some (drop (length orig - length rest) orig)

-- the number of words that match, and what is written to `parm`, if it is not NULL
unfoldable pub parse_strings : Bytes → Bytes → ℤ → Option (ℕ × Option Bytes)
unfolding match_loop up_string rtrim
parse_strings s1 s2 wcnt =
    let orig = rtrim s2 in
    do
      (words, rest) ←
          match_loop (suc (length (rtrim s1))) wcnt (up_string (rtrim s1)) (up_string orig) 0
      some (words, argument orig rest)
