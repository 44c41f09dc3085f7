-- ===== src/Base/Assoc.antt =====
-- The first element of a list that a test accepts: finding it, what stands behind it, and putting
-- another one in its place.
use mathlib.Core.Path.{◌≡◌, refl, ap}
use mathlib.Core.Bool.{Bool}
use mathlib.Core.Option.{Option, none, some}
use mathlib.Core.Logic.{inl, inr}
use mathlib.Core.List.{List, [], ◌∷◌, ◌++◌}
use native.Mathlib.Omega.{arith}
use sklaffkom.Base.Tests.{if◌then◌else◌, Bool-cases}

module _ {A : Type 0} (is : A → Bool) where
  abbrev pub find_first : List A → Option A
  find_first [] = none
  find_first (x ∷ xs) = if is x then some x else find_first xs

  abbrev pub find_rest : List A → Option (A × List A)
  find_rest [] = none
  find_rest (x ∷ xs) = if is x then some (x, xs) else find_rest xs

  abbrev pub replace_first : A → List A → List A
  replace_first a [] = []
  replace_first a (x ∷ xs) = if is x then a ∷ xs else x ∷ replace_first a xs

module _ {A : Type 0} (is : A → Bool) where
  abbrev pub remove_first : List A → List A
  remove_first [] = []
  remove_first (x ∷ xs) = if is x then xs else x ∷ remove_first xs

-- Where the element was found, the list is what stands before it, the element, and the rest.
pub record Split {A : Type 0} (is : A → Bool) (xs : List A) (old : A) : Type 0 where
  pub pre : List A
  pub post : List A
  pub rest_is : find_rest is xs ≡ some (old, post)
  pub splits : xs ≡ pre ++ old ∷ post
  pub replaced : (a : A) → replace_first is a xs ≡ pre ++ a ∷ post
  pub removed : remove_first is xs ≡ pre ++ post

module _ {A : Type 0} (is : A → Bool) where
  pub find_first-Split : (xs : List A) (old : A) → find_first is xs ≡ some old → Split is xs old
  find_first-Split [] old h = cc
  find_first-Split (x ∷ xs) old h = elim (Bool-cases (is x)) [
    | inl here ↦
        let same : some x ≡ some old = rw here at h in
        let same' : x ≡ old = cc in
        record {
          pre = [];
          post = xs;
          rest_is = rw here (ap (λ d. some (d, xs)) same');
          splits = ap (λ d. d ∷ xs) same';
          replaced = λ a. rw here refl;
          removed = rw here refl;
        }
    | inr there ↦
        let deeper = find_first-Split xs old (rw there at h) in
        record {
          pre = x ∷ deeper.pre;
          post = deeper.post;
          rest_is = rw there deeper.rest_is;
          splits = ap (◌∷◌ x) deeper.splits;
          replaced = λ a. rw there (ap (◌∷◌ x) (deeper.replaced a));
          removed = rw there (ap (◌∷◌ x) deeper.removed);
        }
  ]

  pub find_rest-none : (xs : List A) → find_first is xs ≡ none → find_rest is xs ≡ none
  find_rest-none [] h = refl
  find_rest-none (x ∷ xs) h = ground (arith, find_rest-none xs)
