-- ===== src/Names/Order.antt =====
-- order_name after reorder_name (lib/sort_util.c).
use sklaffkom.Base.{
  ◌≡◌, refl, Bytes, true, false, [], ◌∷◌, ◌++◌, ap, ◌∙◌, sym, inl, inr, Bool-cases, append_assoc,
}
use sklaffkom.Libc.{before_last}
use sklaffkom.Libc.Decimal.{Lacks}
use sklaffkom.Libc.Search.{
  strchr_next-Lacks, strchr_next-found, before-found, strrchr_next-LastSplit,
}
use sklaffkom.Names.{opens_bracket, order_name, reorder_name}

opens_bracket-append : (a b : Bytes) → opens_bracket (a ++ b' ' ∷ b) ≡ opens_bracket a
opens_bracket-append [] b = refl
opens_bracket-append (x ∷ a) b = refl

opens_bracket-more : (b t : Bytes) → opens_bracket b ≡ true → opens_bracket (b ++ t) ≡ true
opens_bracket-more [] t h = cc
opens_bracket-more (x ∷ b) t h = h

-- A name without a blank stays as it is.
order_name-plain : (s : Bytes) → Lacks b' ' s → order_name s ≡ s
unfolding order_name
order_name-plain s l = rw (order_name, strchr_next-Lacks s 32 l) refl

-- the last name, and the others, of which the first has no bracket
order_name-swapped :
    (b a : Bytes)
    → Lacks b' ' b
    → opens_bracket a ≡ false
    → order_name (b ++ b' ' ∷ a) ≡ a ++ b' ' ∷ b
unfolding order_name
order_name-swapped b a l h =
    rw (order_name, strchr_next-found b 32 a l, before-found b 32 a l, h) refl

-- one name with a bracket behind it
order_name-bracket :
    (a b : Bytes)
    → Lacks b' ' a
    → Lacks b' ' b
    → opens_bracket b ≡ true
    → order_name (a ++ b' ' ∷ b) ≡ a ++ b' ' ∷ b
unfolding order_name
order_name-bracket a b l k h =
    rw (order_name, strchr_next-found a 32 b l, h, strchr_next-Lacks b 32 k) refl

-- the last name with a bracket behind it, and the others
order_name-both :
    (n b a : Bytes)
    → Lacks b' ' n
    → Lacks b' ' b
    → opens_bracket b ≡ true
    → order_name (n ++ b' ' ∷ (b ++ b' ' ∷ a)) ≡ a ++ b' ' ∷ (n ++ b' ' ∷ b)
unfolding order_name
order_name-both n b a l k h =
    rw
      (
        order_name,
        strchr_next-found n 32 (b ++ 32 ∷ a) l,
        opens_bracket-more b (32 ∷ a) h,
        strchr_next-found b 32 a k,
        before-found b 32 a k,
        before-found n 32 (b ++ 32 ∷ a) l,
      )
      refl

-- order_name gives back every name that reorder_name turned around, a name with a bracket behind it
-- and a name of one word included, unless the name begins with a bracket.
pub order_name-reorder_name :
    (s : Bytes) → opens_bracket s ≡ false → order_name (reorder_name s) ≡ s
unfolding reorder_name
order_name-reorder_name s h = elim (strrchr_next-LastSplit s b' ') [
  | inl (e, l) ↦ rw e (order_name-plain s l)
  | inr (b, e, l, split) ↦ elim (Bool-cases (opens_bracket b)) [
    | inr plain ↦
        let first : opens_bracket (before_last s 32) ≡ false =
          sym (opens_bracket-append (before_last s 32) b) ∙ ap opens_bracket (sym split) ∙ h in
        rw (e, plain) (order_name-swapped b (before_last s 32) l first ∙ sym split)
    | inl bracket ↦ elim (strrchr_next-LastSplit (before_last s b' ') b' ') [
      | inl (f, m) ↦
          rw (e, bracket, f)
            (ap order_name split ∙ order_name-bracket (before_last s 32) b m l bracket ∙ sym split)
      | inr (n, f, m, inner) ↦
          let a = before_last (before_last s 32) 32 in
          rw (e, bracket, f)
            (ap order_name (append_assoc n (32 ∷ b) (32 ∷ a))
              ∙ order_name-both n b a m l bracket
              ∙ sym (append_assoc a (32 ∷ n) (32 ∷ b))
              ∙ ap (λ t. t ++ 32 ∷ b) (sym inner)
              ∙ sym split)
    ]
  ]
]
