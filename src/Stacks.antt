-- ===== src/Stacks.antt =====
-- The four linked stacks of text.c: `ustack` and `ustack2` (unread texts), `rstack` (read texts) and
-- `cstack` (comments). A linked list is the list of its nodes from the global pointer on; the top of
-- a stack is the last node. `alloc` is the outcome of the call of malloc.
pub mod Laws
use sklaffkom.Base.{
  ℕ, zero, suc, Bool, true, false, ◌≡◌, Option, none, some, List, [], ◌∷◌, ◌++◌, if◌then◌else◌,
  length, ℤ, pos, negsuc, failure, eqb_ℤ,
}

-- struct UR_STACK
pub record UnreadItem : Type 0 where
  pub conf : ℤ
  pub num : ℤ

-- the global variables `ustack`, `ustack2`, `rstack` and `cstack`
pub record Session : Type 0 where
  pub ustack : List UnreadItem
  pub ustack2 : List UnreadItem
  pub rstack : List UnreadItem
  pub cstack : List ℤ

module _ {ℓ} {A : Type ℓ} where
  -- the walk to the last node, and a new node behind it
  unfoldable pub link_last : A → List A → List A
  link_last a [] = a ∷ []
  link_last a (x ∷ xs) = x ∷ link_last a xs

  -- the walk to the last node
  unfoldable pub last_node : List A → Option A
  last_node [] = none
  last_node (x ∷ []) = some x
  last_node (x ∷ y ∷ r) = last_node (y ∷ r)

  -- the walk to the node before the last one, whose `next` is cleared
  unfoldable pub unlink_last : List A → List A
  unlink_last [] = []
  unlink_last (x ∷ []) = []
  unlink_last (x ∷ y ∷ r) = x ∷ unlink_last (y ∷ r)

unfoldable pub push_unread : Bool → ℤ → ℤ → Session → ℤ × Session
push_unread alloc conf num s =
    if alloc
    then (pos 0, record s { ustack = link_last (record { conf = conf; num = num }) s.ustack })
    else (failure, s)

unfoldable pub push_unread2 : Bool → ℤ → ℤ → Session → ℤ × Session
push_unread2 alloc conf num s =
    if alloc
    then (pos 0, record s { ustack2 = link_last (record { conf = conf; num = num }) s.ustack2 })
    else (failure, s)

unfoldable pub push_read : Bool → ℤ → ℤ → Session → ℤ × Session
push_read alloc conf num s =
    if alloc
    then (pos 0, record s { rstack = link_last (record { conf = conf; num = num }) s.rstack })
    else (failure, s)

unfoldable pub push_comment : Bool → ℤ → Session → ℤ × Session
push_comment alloc num s =
    if alloc then (pos 0, record s { cstack = link_last num s.cstack }) else (failure, s)

-- A pop takes the caller's variable `*conf`, and returns the text, that variable and the session.
abbrev pub Popped : Type 0
Popped = ℤ × ℤ × Session

unfoldable pub pop_unread : ℤ → Session → Popped
pop_unread conf s = elim (last_node s.ustack) [
  | none ↦ (failure, conf, s)
  | some saved ↦ (saved.num, saved.conf, record s { ustack = unlink_last s.ustack })
]

unfoldable pub pop_unread2 : ℤ → Session → Popped
pop_unread2 conf s = elim (last_node s.ustack2) [
  | none ↦ (failure, conf, s)
  | some saved ↦ (saved.num, saved.conf, record s { ustack2 = unlink_last s.ustack2 })
]

unfoldable pub pop_read : ℤ → Session → Popped
pop_read conf s = elim (last_node s.rstack) [
  | none ↦ (failure, conf, s)
  | some saved ↦ (saved.num, saved.conf, record s { rstack = unlink_last s.rstack })
]

unfoldable pub pop_comment : Session → ℤ × Session
pop_comment s = elim (last_node s.cstack) [
  | none ↦ (failure, s)
  | some saved ↦ (saved, record s { cstack = unlink_last s.cstack })
]

-- `while (textnum != -1) textnum = pop_comment();`, with fuel
unfoldable pub clear_loop : ℕ → ℤ → Session → Session
clear_loop zero textnum s = s
clear_loop (suc f) textnum s =
    let rest = clear_loop f (pop_comment s).0 (pop_comment s).1 in
    if eqb_ℤ textnum failure then s else rest

-- One round for each node, and one for the -1 of the empty stack.
unfoldable pub clear_comment : Session → Session
clear_comment s = clear_loop (suc (length s.cstack)) (pop_comment s).0 (pop_comment s).1

unfoldable pub more_comment : Session → ℤ
more_comment s = elim s.cstack [ [] ↦ pos 0 | _ ∷ _ ↦ pos 1 ]
