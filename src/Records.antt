-- ===== src/Records.antt =====
-- Files with one line for each entry, as user.c and buf.c keep several: a function reads the entry at a
-- place and returns the place behind its line, and loops call it until an entry is the one looked for.
pub mod Files
use sklaffkom.Base.{ℕ, zero, suc, Bool, Option, none, some, Bytes, length, if◌then◌else◌}

-- The result of reading an entry: NULL, or the entry and the place behind its line. `none` is an access
-- through NULL.
abbrev pub Reads : Type 0 → Type 0
Reads A = Option (Option (A × Bytes))

module _ {A : Type 0} where
  -- one round: the loop ends at an entry that the test accepts, and at NULL
  abbrev pub test_read : (A → Bool) → (Bytes → Reads A) → Reads A → Reads A
  test_read is next none = none
  test_read is next (some none) = some none
  test_read is next (some (some (e, rest))) =
      let further = next rest in if is e then some (some (e, rest)) else further

  unfoldable pub read_loop : (Bytes → Reads A) → (A → Bool) → ℕ → Bytes → Reads A
  read_loop fetch is zero buf = none
  read_loop fetch is (suc f) buf = test_read is (read_loop fetch is f) (fetch buf)

  -- `while ((buf = get_…_entry(buf, &e))) if (…) break;`; each entry takes a byte at least
  unfoldable pub read_until : (Bytes → Reads A) → (A → Bool) → Bytes → Reads A
  read_until fetch is buf = read_loop fetch is (suc (length buf)) buf
