-- ===== src/Libc/Search.antt =====
-- strchr over strings whose pieces are known.
use sklaffkom.Base.{
  ℕ, ◌≡◌, refl, none, some, [], ◌∷◌, ◌++◌, Bytes, ==_refl, ap, length, ◌<◌, arith, ◌⊎◌, inl,
  Bool-cases, ◌==◌, inr, ==_iff,
}
use sklaffkom.Libc.Decimal.{Lacks}
use sklaffkom.Libc.{strchr, strchr_next, before, strrchr_next, before_last}

pub strchr_next-found :
    (xs : Bytes) (c : ℕ) (ys : Bytes) → Lacks c xs → strchr_next (xs ++ c ∷ ys) c ≡ some ys
unfolding strchr_next
strchr_next-found [] c ys h = rw ==_refl
strchr_next-found (x ∷ xs) c ys h = rw h.0 (strchr_next-found xs c ys h.1)

pub strchr-found :
    (xs : Bytes) (c : ℕ) (ys : Bytes) → Lacks c xs → strchr (xs ++ c ∷ ys) c ≡ some (c ∷ ys)
unfolding strchr
strchr-found [] c ys h = rw ==_refl
strchr-found (x ∷ xs) c ys h = rw h.0 (strchr-found xs c ys h.1)

pub strchr-Lacks : (xs : Bytes) (c : ℕ) → Lacks c xs → strchr xs c ≡ none
unfolding strchr
strchr-Lacks [] c h = refl
strchr-Lacks (x ∷ xs) c h = rw h.0 (strchr-Lacks xs c h.1)

pub before-found : (xs : Bytes) (c : ℕ) (ys : Bytes) → Lacks c xs → before (xs ++ c ∷ ys) c ≡ xs
unfolding before
before-found [] c ys h = rw ==_refl
before-found (x ∷ xs) c ys h = rw h.0 (ap (◌∷◌ x) (before-found xs c ys h.1))

pub strchr_next-skip :
    (xs : Bytes) (c : ℕ) (ys : Bytes) → Lacks c xs → strchr_next (xs ++ ys) c ≡ strchr_next ys c
unfolding strchr_next
strchr_next-skip [] c ys h = refl
strchr_next-skip (x ∷ xs) c ys h = rw h.0 (strchr_next-skip xs c ys h.1)

pub length-strchr_next :
    (xs : Bytes) (c : ℕ) (ys : Bytes) → strchr_next xs c ≡ some ys → length ys < length xs
unfolding strchr_next
length-strchr_next [] c ys h = cc
length-strchr_next (x ∷ xs) c ys h = ground (arith, length-strchr_next xs c ys)

pub strchr_next-Lacks : (xs : Bytes) (c : ℕ) → Lacks c xs → strchr_next xs c ≡ none
unfolding strchr_next
strchr_next-Lacks [] c h = refl
strchr_next-Lacks (x ∷ xs) c h = rw h.0 (strchr_next-Lacks xs c h.1)

-- what strrchr finds: nothing, or the pieces around the last `c`
abbrev pub LastSplit : Bytes → ℕ → Type 0
LastSplit xs c =
    ((strrchr_next xs c ≡ none) × Lacks c xs)
    ⊎ ((b : Bytes) × (strrchr_next xs c ≡ some b) × Lacks c b × (xs ≡ before_last xs c ++ c ∷ b))

pub strrchr_next-LastSplit : (xs : Bytes) (c : ℕ) → LastSplit xs c
unfolding strrchr_next before_last
strrchr_next-LastSplit [] c = inl (refl, tt)
strrchr_next-LastSplit (x ∷ xs) c = elim (strrchr_next-LastSplit xs c) [
  | inl (e, l) ↦ elim (Bool-cases (x == c)) [
    | inl here ↦
        inr (xs, rw (e, here) refl, l, rw (here, e) (ap (λ y. y ∷ xs) ((==_iff x c).0 here)))
    | inr there ↦ inl (rw (e, there) refl, (there, l))
  ]
  | inr (b, e, l, split) ↦ inr (b, rw e refl, l, rw e (ground (arith, split)))
]
