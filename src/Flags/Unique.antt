-- ===== src/Flags/Unique.antt =====
-- The abbreviations that turn_flag (flag.c) takes.
use sklaffkom.Base.{
  ℕ, ◌+◌, ◌≤◌, ◌≡◌, refl, arith, Bytes, Bool, true, false, ◌&&◌, List, [], ◌∷◌, length, ltb, ◌==◌,
  if◌then◌else◌, Bool-cases, inl, inr,
}
use sklaffkom.Libc.{is_prefix}
use sklaffkom.Flags.Turning.{Branch, meant, branches}

-- the number of branches that a text is meant for
abbrev pub count_meant : Bytes → List Branch → ℕ
count_meant flag [] = 0
count_meant flag (b ∷ bs) = (if meant flag b then 1 else 0) + count_meant flag bs

-- the length of the longest common prefix
common : Bytes → Bytes → ℕ
common [] t = 0
common (x ∷ s) [] = 0
common (x ∷ s) (y ∷ t) = let rest = common s t in if x == y then 1 + rest else 0

length-common :
    (flag s t : Bytes)
    → is_prefix flag s ≡ true
    → is_prefix flag t ≡ true
    → length flag ≤ common s t
unfolding common
length-common [] s t h k = omega arith
length-common (c ∷ flag) [] t h k = cc
length-common (c ∷ flag) (x ∷ s) [] h k = cc
length-common (c ∷ flag) (x ∷ s) (y ∷ t) h k = ground (arith, length-common flag s t)

-- no text is long enough for both branches and a prefix of both names
abbrev apart : Branch → Branch → Bool
apart b c =
    if ltb b.least c.least
    then ltb (common b.name c.name) c.least
    else ltb (common b.name c.name) b.least

apart_all : Branch → List Branch → Bool
apart_all b [] = true
apart_all b (c ∷ bs) = apart b c && apart_all b bs

pairwise_apart : List Branch → Bool
pairwise_apart [] = true
pairwise_apart (b ∷ bs) = apart_all b bs && pairwise_apart bs

apart-meant :
    (flag : Bytes) (b c : Branch) → apart b c ≡ true → meant flag b ≡ true → meant flag c ≡ false
apart-meant flag b c h k = elim (Bool-cases (meant flag c)) [
  | inl e ↦
      let size = length-common flag b.name c.name (ground arith) (ground arith) in ground arith
  | inr e ↦ e
]

count_meant-apart :
    (flag : Bytes) (b : Branch) (bs : List Branch)
    → apart_all b bs ≡ true
    → meant flag b ≡ true
    → count_meant flag bs ≡ 0
unfolding apart_all
count_meant-apart flag b [] h k = refl
count_meant-apart flag b (c ∷ bs) h k =
    rw (apart-meant flag b c (ground arith) k)
      (omega (arith, count_meant-apart flag b bs (ground arith) k))

count_meant-pairwise :
    (flag : Bytes) (bs : List Branch) → pairwise_apart bs ≡ true → count_meant flag bs ≤ 1
unfolding pairwise_apart
count_meant-pairwise flag [] h = omega arith
count_meant-pairwise flag (b ∷ bs) h = elim (Bool-cases (meant flag b)) [
  | inl e ↦ rw (e, count_meant-apart flag b bs (ground arith) e) (omega arith)
  | inr e ↦ rw e (omega (arith, count_meant-pairwise flag bs (ground arith)))
]

branches_apart : pairwise_apart branches ≡ true
unfolding pairwise_apart apart_all common
branches_apart = refl

-- No text is taken by two branches of turn_flag: the number of bytes that each name needs makes every
-- abbreviation of a flag that turn_flag takes unique, whatever the order of the branches.
pub count_meant-branches : (flag : Bytes) → count_meant flag branches ≤ 1
count_meant-branches flag = count_meant-pairwise flag branches branches_apart
