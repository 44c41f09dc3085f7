-- ===== src/Flags/Strings.antt =====
-- strstr over lines `name = value`, as flag.c calls it.
use sklaffkom.Base.{
  ℕ, ◌≡◌, refl, ap, arith, Bytes, false, ◌&&◌, ◌==◌, [], ◌∷◌, ◌++◌, Option, none, some, inl, inr,
  Bool-cases,
}
use mathlib.Core.Path.{subst}
use sklaffkom.Libc.{is_prefix, strstr}
use sklaffkom.Libc.Decimal.{Lacks}

-- a place in a string, with more behind the string
abbrev pub extended : Bytes → Option Bytes → Option Bytes
extended t none = none
extended t (some b) = some (b ++ t)

not_blank : (k : ℕ) → (k == b' ') ≡ false → (b' ' == k) ≡ false
not_blank k h = ground arith

-- a key without blanks does not reach behind a blank
is_prefix-blank :
    (key a t : Bytes) → Lacks b' ' key → is_prefix key (a ++ b' ' ∷ t) ≡ is_prefix key a
is_prefix-blank [] a t h = refl
is_prefix-blank (k ∷ key) [] t h = let other = not_blank k h.0 in rw other refl
is_prefix-blank (k ∷ key) (c ∷ a) t h = ap (λ b. (c == k) && b) (is_prefix-blank key a t h.1)

-- no key begins at a byte that is not its first
pub strstr-skip :
    (k : ℕ) (key a t : Bytes) → Lacks k a → strstr (a ++ t) (k ∷ key) ≡ strstr t (k ∷ key)
unfolding strstr
strstr-skip k key [] t h = refl
strstr-skip k key (c ∷ a) t h = rw h.0 (strstr-skip k key a t h.1)

pub strstr-found :
    (k : ℕ) (key a t b : Bytes)
    → Lacks b' ' (k ∷ key)
    → strstr a (k ∷ key) ≡ some b
    → strstr (a ++ b' ' ∷ t) (k ∷ key) ≡ some (b ++ b' ' ∷ t)
unfolding strstr
strstr-found k key [] t b h e = cc
strstr-found k key (c ∷ a) t b h e = elim (Bool-cases (is_prefix (k ∷ key) (c ∷ a))) [
  | inl here ↦
      let same : some (c ∷ a) ≡ some b = rw here at e in
      rw (is_prefix-blank (k ∷ key) (c ∷ a) t h, here) (ap (extended (32 ∷ t)) same)
  | inr there ↦
      let deeper : strstr a (k ∷ key) ≡ some b = rw there at e in
      rw (is_prefix-blank (k ∷ key) (c ∷ a) t h, there) (strstr-found k key a t b h deeper)
]

pub strstr-missed :
    (k : ℕ) (key a t : Bytes)
    → Lacks b' ' (k ∷ key)
    → strstr a (k ∷ key) ≡ none
    → strstr (a ++ b' ' ∷ t) (k ∷ key) ≡ strstr t (k ∷ key)
unfolding strstr
strstr-missed k key [] t h e = let other = not_blank k h.0 in rw other refl
strstr-missed k key (c ∷ a) t h e = elim (Bool-cases (is_prefix (k ∷ key) (c ∷ a))) [
  | inl here ↦ let found : some (c ∷ a) ≡ none = rw here at e in cc
  | inr there ↦
      let deeper : strstr a (k ∷ key) ≡ none = rw there at e in
      rw (is_prefix-blank (k ∷ key) (c ∷ a) t h, there) (strstr-missed k key a t h deeper)
]

pub strstr-Lacks : (c k : ℕ) (key a b : Bytes) → Lacks c a → strstr a (k ∷ key) ≡ some b → Lacks c b
unfolding strstr
strstr-Lacks c k key [] b h e = cc
strstr-Lacks c k key (x ∷ a) b h e = elim (Bool-cases (is_prefix (k ∷ key) (x ∷ a))) [
  | inl here ↦
      let same : some (x ∷ a) ≡ some b = rw here at e in subst (λ s. Lacks c (rest_of s)) same h
  | inr there ↦
      let deeper : strstr a (k ∷ key) ≡ some b = rw there at e in
      strstr-Lacks c k key a b h.1 deeper
]
  where
    rest_of : Option Bytes → Bytes
    rest_of none = []
    rest_of (some s) = s
