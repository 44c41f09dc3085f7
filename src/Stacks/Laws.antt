-- ===== src/Stacks/Laws.antt =====
-- The stacks of text.c under sequences of pushes and pops.
use sklaffkom.Base.{
  true, ◌≡◌, refl, ap, some, List, [], ◌∷◌, ℤ, All, none, eqb_ℤ, suc, ◌⊎◌, failure, length, ℕ,
  false, ◌<◌, inl, inr, zero, arith, ◌∙◌,
}
use sklaffkom.Stacks.{
  UnreadItem, Session, link_last, last_node, unlink_last, push_unread, push_unread2, push_read,
  push_comment, pop_unread, pop_unread2, pop_read, pop_comment, clear_loop, clear_comment,
}

module _ {ℓ} {A : Type ℓ} where
  pub last_node-link_last : (a : A) (xs : List A) → last_node (link_last a xs) ≡ some a
  unfolding last_node link_last
  last_node-link_last a [] = refl
  last_node-link_last a (x ∷ []) = refl
  last_node-link_last a (x ∷ y ∷ r) = last_node-link_last a (y ∷ r)

  pub unlink_last-link_last : (a : A) (xs : List A) → unlink_last (link_last a xs) ≡ xs
  unfolding unlink_last link_last
  unlink_last-link_last a [] = refl
  unlink_last-link_last a (x ∷ []) = refl
  unlink_last-link_last a (x ∷ y ∷ r) = ap (◌∷◌ x) (unlink_last-link_last a (y ∷ r))

-- Popping after a push gives the pushed text and conference back and restores the whole session,
-- on each of the three stacks of (conference, text) pairs and on the comment stack, whatever the
-- session and the caller's variable hold.
pub pop-push :
    (conf num junk : ℤ) (s : Session)
    → (pop_unread junk (push_unread true conf num s).1 ≡ (num, conf, s))
      × (pop_unread2 junk (push_unread2 true conf num s).1 ≡ (num, conf, s))
      × (pop_read junk (push_read true conf num s).1 ≡ (num, conf, s))
      × (pop_comment (push_comment true num s).1 ≡ (num, s))
unfolding push_unread push_unread2 push_read push_comment pop_unread pop_unread2 pop_read
    pop_comment
pop-push conf num junk s =
    let item : UnreadItem = record { conf = conf; num = num } in
    (
      ground (arith, last_node-link_last item s.ustack, unlink_last-link_last item s.ustack),
      ground (arith, last_node-link_last item s.ustack2, unlink_last-link_last item s.ustack2),
      ground (arith, last_node-link_last item s.rstack, unlink_last-link_last item s.rstack),
      ground (arith, last_node-link_last num s.cstack, unlink_last-link_last num s.cstack),
    )

module _ {ℓ} {A : Type ℓ} where
  -- A list is empty or ends in a last node.
  last_node-cases :
      (xs : List A)
      → ((last_node xs ≡ none) × (xs ≡ []))
        ⊎ ((a : A) × (last_node xs ≡ some a) × (xs ≡ link_last a (unlink_last xs)))
  unfolding last_node unlink_last link_last
  last_node-cases [] = inl (refl, refl)
  last_node-cases (x ∷ []) = inr (x, refl, refl)
  last_node-cases (x ∷ y ∷ r) = elim (last_node-cases (y ∷ r)) [
    | inl (e, h) ↦ cc
    | inr (a, e, h) ↦ inr (a, e, ap (◌∷◌ x) h)
  ]

  length-unlink_last : (x : A) (xs : List A) → suc (length (unlink_last (x ∷ xs))) ≡ length (x ∷ xs)
  unfolding unlink_last
  length-unlink_last x [] = refl
  length-unlink_last x (y ∷ r) = ap suc (length-unlink_last y r)

module _ {ℓ κ} {A : Type ℓ} (P : A → Type κ) where
  All-link_last : (a : A) (xs : List A) → All P (link_last a xs) → All P xs × P a
  unfolding link_last
  All-link_last a [] h = (tt, h.0)
  All-link_last a (x ∷ xs) h = let k = All-link_last a xs h.1 in ((h.0, k.0), k.1)

-- no text on the stack has the number -1
abbrev pub NoFailure : ℤ → Type 0
NoFailure n = eqb_ℤ n failure ≡ false

pop_comment-none : (s : Session) → last_node s.cstack ≡ none → pop_comment s ≡ (failure, s)
unfolding pop_comment
pop_comment-none s e = ground (arith, e)

pop_comment-some :
    (s : Session) (a : ℤ)
    → last_node s.cstack ≡ some a
    → pop_comment s ≡ (a, record s { cstack = unlink_last s.cstack })
unfolding pop_comment
pop_comment-some s a e = ground (arith, e)

length-link_last {ℓ} :
    {A : Type ℓ} (a : A) (xs : List A) → length (link_last a xs) ≡ suc (length xs)
unfolding link_last
length-link_last a [] = refl
length-link_last a (x ∷ xs) = ap suc (length-link_last a xs)

clear_loop-empties :
    (f : ℕ) (s : Session)
    → length s.cstack < f
    → All NoFailure s.cstack
    → clear_loop f (pop_comment s).0 (pop_comment s).1 ≡ record s { cstack = [] }
unfolding clear_loop
clear_loop-empties zero s h k = elim h [ ]
clear_loop-empties (suc f) s h k = elim (last_node-cases s.cstack) [
  | inl (e, empty) ↦ rw (pop_comment-none s e) (ap (λ c. record s { cstack = c }) empty)
  | inr (a, e, ends) ↦
      let shorter : length s.cstack ≡ suc (length (unlink_last s.cstack)) =
        ap length ends ∙ length-link_last a (unlink_last s.cstack) in
      let kept = All-link_last NoFailure a (unlink_last s.cstack) (rw ends at k) in
      rw (pop_comment-some s a e) (
        rw kept.1
          (clear_loop-empties f (record s { cstack = unlink_last s.cstack }) (omega arith) kept.0))
]

-- clear_comment ends and empties the comment stack, with the other three stacks unchanged, for every
-- session where no text on that stack has the number -1.
pub clear_comment-empties :
    (s : Session) → All NoFailure s.cstack → clear_comment s ≡ record s { cstack = [] }
unfolding clear_comment
clear_comment-empties s k = clear_loop-empties (suc (length s.cstack)) s (omega arith) k
