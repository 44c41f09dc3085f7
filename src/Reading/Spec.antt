-- ===== src/Reading/Spec.antt =====
-- What the user's `confs` file stands for: the conferences that the user is a member of, and the
-- texts that are read in each.
use sklaffkom.Base.{
  ℕ, Bool, true, false, ◌≡◌, ap, ◌∙◌, Option, none, some, List, [], ◌∷◌, arith, All, ◌==◌,
  if◌then◌else◌, inl, inr, Bool-cases, sym,
}
use mathlib.Core.Path.{subst, sym}
use sklaffkom.Confs.Codec.{Fits}
use sklaffkom.Confs.Search.{lookup, put, lookup-put}
use sklaffkom.Confs.{ConfsEntry}
use sklaffkom.Intervals.Order.{IsSeparated}
use sklaffkom.Intervals.{Intervals, covers}

-- The numbers of the entry fit their C types, and its intervals are in order, of texts from 1 on.
pub record IsWellFormed (cse : ConfsEntry) : Type 0 where
  pub fits : Fits cse
  pub ordered : IsSeparated 1 cse.il

abbrev pub AllWellFormed : List ConfsEntry → Type 0
AllWellFormed = All IsWellFormed

pub AllWellFormed-Fits : (es : List ConfsEntry) → AllWellFormed es → All Fits es
AllWellFormed-Fits [] h = tt
AllWellFormed-Fits (e ∷ es) h = (h.0.fits, AllWellFormed-Fits es h.1)

abbrev pub is_some : Option ConfsEntry → Bool
is_some none = false
is_some (some e) = true

-- Is the user a member of the conference?
abbrev pub is_member : ℕ → List ConfsEntry → Bool
is_member conf es = is_some (lookup conf es)

abbrev pub read_in : ℕ → Option ConfsEntry → Bool
read_in text none = false
read_in text (some e) = covers text e.il

-- Is the text of the conference read?
abbrev pub is_read : ℕ → ℕ → List ConfsEntry → Bool
is_read conf text es = read_in text (lookup conf es)

pub lookup-IsWellFormed :
    (conf : ℕ) (e : ConfsEntry) (es : List ConfsEntry)
    → AllWellFormed es
    → lookup conf es ≡ some e
    → IsWellFormed e × (e.num ≡ conf)
lookup-IsWellFormed conf e [] h k = cc
lookup-IsWellFormed conf e (d ∷ es) h k = elim (Bool-cases (d.num == conf)) [
  | inl here ↦ let same : d ≡ e = ground arith in (subst IsWellFormed same h.0, ground arith)
  | inr there ↦ lookup-IsWellFormed conf e es h.1 (ground arith)
]

pub AllWellFormed-put :
    (e : ConfsEntry) (es : List ConfsEntry)
    → IsWellFormed e
    → AllWellFormed es
    → AllWellFormed (put e es)
AllWellFormed-put e [] w h = tt
AllWellFormed-put e (d ∷ es) w h = elim (Bool-cases (d.num == e.num)) [
  | inl here ↦ rw here (w, h.1)
  | inr there ↦ rw there (h.0, AllWellFormed-put e es w h.1)
]

-- Replacing the intervals of one conference changes what is read in that conference only.
pub is_read-put :
    (conf conf' text : ℕ) (cse : ConfsEntry) (il : Intervals) (es : List ConfsEntry)
    → lookup conf es ≡ some cse
    → cse.num ≡ conf
    → is_read conf' text (put (record cse { il = il }) es)
      ≡ (if conf == conf' then covers text il else is_read conf' text es)
is_read-put conf conf' text cse il es h e =
    let new : ConfsEntry = record cse { il = il } in
    ap (read_in text) (lookup-put conf' new cse es (ap (λ n. lookup n es) e ∙ h))
    ∙ elim (Bool-cases (conf == conf')) [ inl here ↦ rw (e, here) | inr there ↦ rw (e, there) ]

pub is_member-put :
    (conf conf' : ℕ) (cse : ConfsEntry) (il : Intervals) (es : List ConfsEntry)
    → lookup conf es ≡ some cse
    → cse.num ≡ conf
    → is_member conf' (put (record cse { il = il }) es) ≡ is_member conf' es
is_member-put conf conf' cse il es h e =
    let new : ConfsEntry = record cse { il = il } in
    ap is_some (lookup-put conf' new cse es (ap (λ n. lookup n es) e ∙ h))
    ∙ elim (Bool-cases (conf == conf')) [
      | inl here ↦
          let same : conf ≡ conf' = ground arith in
          rw (e, here) (sym (ap is_some (ap (λ n. lookup n es) (sym same) ∙ h)))
      | inr there ↦ rw (e, there)
    ]
