-- ===== src/Mail/Parts/Search.antt =====
-- strstr on strings whose pieces are known, for the markers between the parts of a message.
use sklaffkom.Base.{
  ℕ, ◌-◌, ◌≤◌, ◌≡◌, refl, true, false, none, some, [], ◌∷◌, ◌++◌, Bytes, Bool-cases, inl, inr,
  length, take, ==_refl, arith, ◌==◌, length-append, take-length-append,
}
use sklaffkom.Libc.{strstr, is_prefix}
use sklaffkom.Libc.Decimal.{Lacks}

pub is_prefix-append : (key s : Bytes) → is_prefix key (key ++ s) ≡ true
is_prefix-append [] s = refl
is_prefix-append (k ∷ key) s = rw (==_refl k) (is_prefix-append key s)

pub strstr-here :
    (k : ℕ) (key s : Bytes) → strstr ((k ∷ key) ++ s) (k ∷ key) ≡ some ((k ∷ key) ++ s)
unfolding strstr
strstr-here k key s = rw (==_refl k, is_prefix-append key s) refl

-- a byte that the key lacks ends every match
is_prefix-break :
    (c : ℕ) (key s t : Bytes) → Lacks c key → is_prefix key (s ++ c ∷ t) ≡ is_prefix key s
is_prefix-break c [] s t h = refl
is_prefix-break c (k ∷ key) [] t h =
    let other : (c == k) ≡ false = ground (arith, h.0) in rw other refl
is_prefix-break c (k ∷ key) (x ∷ s) t h = rw (is_prefix-break c key s t h.1) refl

-- where the key does not occur before such a byte, strstr goes on behind it
pub strstr-break :
    (c k : ℕ) (key s t : Bytes)
    → Lacks c (k ∷ key)
    → strstr s (k ∷ key) ≡ none
    → strstr (s ++ c ∷ t) (k ∷ key) ≡ strstr t (k ∷ key)
unfolding strstr
strstr-break c k key [] t h e = let other : (c == k) ≡ false = ground (arith, h.0) in rw other refl
strstr-break c k key (x ∷ s) t h e = elim (Bool-cases (is_prefix (k ∷ key) (x ∷ s))) [
  | inl f ↦ let clash : some (x ∷ s) ≡ none = rw f at e in cc
  | inr f ↦
      let further : strstr s (k ∷ key) ≡ none = rw f at e in
      rw (is_prefix-break c (k ∷ key) (x ∷ s) t h, f) (strstr-break c k key s t h further)
]

-- nothing begins with a byte that the string lacks
pub strstr-Lacks : (k : ℕ) (key s : Bytes) → Lacks k s → strstr s (k ∷ key) ≡ none
unfolding strstr
strstr-Lacks k key [] h = refl
strstr-Lacks k key (x ∷ s) h = rw h.0 (strstr-Lacks k key s h.1)

pub length-strstr : (s key t : Bytes) → strstr s key ≡ some t → length t ≤ length s
unfolding strstr
length-strstr [] key t e = ground arith
length-strstr (x ∷ s) key t e = elim (Bool-cases (is_prefix key (x ∷ s))) [
  | inl f ↦ let same : some (x ∷ s) ≡ some t = rw f at e in ground arith
  | inr f ↦
      let further : strstr s key ≡ some t = rw f at e in
      omega (arith, length-strstr s key t further)
]

pub Lacks-suffix : (c : ℕ) (s t : Bytes) → Lacks c (s ++ t) → Lacks c t
Lacks-suffix c [] t h = h
Lacks-suffix c (x ∷ s) t h = Lacks-suffix c s t h.1

pub take-prefix : (s t : Bytes) → take (length (s ++ t) - length t) (s ++ t) ≡ s
take-prefix s t =
    let n : length (s ++ t) - length t ≡ length s = omega (arith, length-append s t) in
    rw n (take-length-append s t)
