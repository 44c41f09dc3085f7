-- ===== src/Users/Renamed.antt =====
-- set_sklaff_user_name and user_name of user.c, one after the other.
use mathlib.Core.Path.{subst}
use sklaffkom.Base.{
  ℕ, ◌≤◌, true, false, ◌≡◌, refl, sym, ap, ◌∙◌, some, List, [], ◌∷◌, ◌++◌, arith, Bytes, All, ℤ,
  pos, eqb_ℤ, Bool-cases, inl, inr, ◌==◌, eqb_ℤ-sound,
}
use sklaffkom.Libc.{int_max}
use sklaffkom.Libc.Decimal.{Lacks}
use sklaffkom.RawIo.{Calls, Works}
use sklaffkom.Users.Lines.{Fits, user_line-text, user_text}
use sklaffkom.Users.Lookups.{rtrim, user_name, name_of}
use sklaffkom.Users.Lookups.Codec.{IsStored}
use sklaffkom.Users.Lookups.Results.{user_file, entry_of, user_name-lookups}
use sklaffkom.Users.Renaming.{set_sklaff_user_name-users}
use sklaffkom.Users.Scan.{users, has_uid, count_of, rename}
use sklaffkom.Users.{UserEntry, realname_valid, set_sklaff_user_name, has_mark}

-- the file as either function sees it
users-user_file : (es : List UserEntry) → users es ≡ user_file es
users-user_file [] = refl
users-user_file (e ∷ es) =
    user_line-text e.num e.last_session e.name (users es)
    ∙ ap (λ t. user_text e ++ b'\n' ∷ t) (users-user_file es)

rename-IsStored :
    (uid : ℤ) (name : Bytes) (es : List UserEntry)
    → Lacks b'\n' name
    → rtrim name ≡ name
    → All IsStored es
    → All IsStored (rename uid name es)
rename-IsStored uid name [] lf trimmed h = tt
rename-IsStored uid name (e ∷ es) lf trimmed (he, hs) = elim (Bool-cases (has_uid uid e)) [
  | inl same ↦
      rw same
        (record { num = he.num; last_session = he.last_session; name = lf; trimmed = trimmed }, hs)
  | inr other ↦ rw other (he, rename-IsStored uid name es lf trimmed hs)
]

-- the entry of a user after the renaming
entry_of-renamed :
    (uid : ℤ) (name : Bytes) (es : List UserEntry)
    → (count_of uid es == 1) ≡ true
    → name_of (entry_of uid (rename uid name es)) ≡ some name
entry_of-renamed uid name [] one = cc
entry_of-renamed uid name (e ∷ es) one = elim (Bool-cases (has_uid uid e)) [
  | inl same ↦ rw (same, same) refl
  | inr other ↦ rw (other, other) (entry_of-renamed uid name es (ground (arith, rw other at one)))
]

-- and the entry of another one
entry_of-other :
    (uid : ℤ) (name : Bytes) (es : List UserEntry) (k : ℤ)
    → eqb_ℤ uid k ≡ false
    → entry_of k (rename uid name es) ≡ entry_of k es
entry_of-other uid name [] k h = refl
entry_of-other uid name (e ∷ es) k h = elim (Bool-cases (has_uid uid e)) [
  | inl same ↦
      let num = eqb_ℤ-sound e.num uid same in
      let not_k : eqb_ℤ e.num k ≡ false = rw num h in rw (same, not_k) refl
  | inr other ↦ rw (other, entry_of-other uid name es k h) refl
]

has_mark-Lacks : (name : Bytes) → has_mark name ≡ false → Lacks b'\n' name
has_mark-Lacks [] h = tt
has_mark-Lacks (c ∷ s) h = elim (Bool-cases (has_mark s)) [
  | inl e ↦ ground (arith, rw e at h)
  | inr e ↦ (ground (arith, rw e at h), has_mark-Lacks s e)
]

valid-Lacks : (name : Bytes) → realname_valid name ≡ true → Lacks b'\n' name
unfolding realname_valid
valid-Lacks name h = has_mark-Lacks name (ground (arith, h))

-- Where set_sklaff_user_name gives a user, whom the file has once, a valid name without a space at its
-- end, it returns 0, and user_name on the new file gives that name for the user, and for every other
-- number but 0 what it gave before. All system calls succeed, and the entries of the file fit their
-- types and have no space at the end of a name.
pub set_sklaff_user_name-user_name :
    (calls : Calls) (sysop : Bytes) (n : ℕ) (name : Bytes) (es : List UserEntry)
    → Works calls
    → All Fits es
    → All IsStored es
    → 1 ≤ n
    → n ≤ int_max
    → (count_of (pos n) es == 1) ≡ true
    → realname_valid name ≡ true
    → rtrim name ≡ name
    → (file : Bytes) × (set_sklaff_user_name calls (pos n) name (user_file es) ≡ some (pos 0, file))
      × (user_name sysop calls (pos n) file ≡ some (some name))
      × ((k : ℤ)
          → eqb_ℤ k (pos 0) ≡ false
          → eqb_ℤ (pos n) k ≡ false
          → user_name sysop calls k file ≡ user_name sysop calls k (user_file es))
set_sklaff_user_name-user_name calls sysop n name es works fits stored low high one valid trimmed =
    let after = rename (pos n) name es in
    let kept = rename-IsStored (pos n) name es (valid-Lacks name valid) trimmed stored in
    let nonzero : eqb_ℤ (pos n) (pos 0) ≡ false = ground arith in
    let set = set_sklaff_user_name-users calls n name es works fits low high valid in
    let given = λ (k : ℤ) (l : List UserEntry) (h : All IsStored l) (z : eqb_ℤ k (pos 0) ≡ false).
      (user_name-lookups calls sysop k name l works h z).2 in
    (
      user_file after,
      subst (λ f. set_sklaff_user_name calls (pos n) name f ≡ some (pos 0, user_file after))
          (users-user_file es) (set ∙ rw (one, users-user_file after) refl),
      given (pos n) after kept nonzero ∙ ap some (entry_of-renamed (pos n) name es one),
      λ k z other.
          given k after kept z
          ∙ rw (entry_of-other (pos n) name es k other) (sym (given k es stored z)),
    )
