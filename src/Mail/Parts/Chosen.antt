-- ===== src/Mail/Parts/Chosen.antt =====
-- Which part extract_best_part of mailbody.c chooses of the parts that it comes by.
use sklaffkom.Base.{
  refl, inl, inr, none, some, true, false, List, Bool, Option, ◌∷◌, ◌≡◌, not, find_first, arith, [],
  Bool-cases, ◌&&◌, codes,
}
use sklaffkom.Mail.{contains}
use sklaffkom.Mail.Headers.{Part}
use sklaffkom.Mail.Parts.{
  KeptParts, or_new, is_htmlish, keep_part, choose_part, chosen, nothing_kept, looks_like_html,
}

-- a plain text that does not look like HTML
abbrev pub is_plain : Part → Bool
is_plain p = not (is_htmlish p) && contains p.ctype (codes "text/plain")

abbrev pub first_or : Option Part → Option Part → Option Part
first_or none o = o
first_or (some p) o = some p

-- the first part that is plain text, or else the first that is HTML
abbrev pub preferred : List Part → Option Part
preferred ps = first_or (find_first (λ p. is_plain p) ps) (find_first (λ p. is_htmlish p) ps)

abbrev pub keep_parts : List Part → KeptParts → KeptParts
keep_parts [] kept = kept
keep_parts (p ∷ ps) kept = keep_parts ps (keep_part p kept)

abbrev kept_of : Option Part → Option Part → KeptParts
kept_of h q = record { html = h; plain = q }

first_or-new :
    (o : Option Part) (p : Part) (r : Option Part) → first_or (or_new o p) r ≡ first_or o (some p)
first_or-new none p r = refl
first_or-new (some q) p r = refl

keep_parts-found :
    (ps : List Part) (h q : Option Part)
    → keep_parts ps (kept_of h q)
      ≡ kept_of
          (first_or h (find_first (λ p. is_htmlish p) ps))
          (first_or q (find_first (λ p. is_plain p) ps))
unfolding keep_part
keep_parts-found [] none none = refl
keep_parts-found [] none (some q) = refl
keep_parts-found [] (some h) none = refl
keep_parts-found [] (some h) (some q) = refl
keep_parts-found (p ∷ ps) h q = elim (Bool-cases (is_htmlish p)) [
  | inl e ↦ rw e (rw (keep_parts-found ps (or_new h p) q, first_or-new h p) refl)
  | inr e ↦ elim (Bool-cases (contains p.ctype (codes "text/plain"))) [
    | inl f ↦ rw (e, f) (rw (keep_parts-found ps h (or_new q p), first_or-new q p) refl)
    | inr f ↦ rw (e, f) (keep_parts-found ps h q)
  ]
]

find_first-holds :
    (test : Part → Bool) (ps : List Part) (p : Part) → find_first test ps ≡ some p → test p ≡ true
find_first-holds test [] p e = cc
find_first-holds test (x ∷ ps) p e = elim (Bool-cases (test x)) [
  | inl t ↦ let same : some x ≡ some p = rw t at e in ground (arith, t)
  | inr t ↦ find_first-holds test ps p (rw t at e)
]

is_plain_lem : (p : Part) → is_plain p ≡ true → looks_like_html p.body ≡ false
unfolding is_htmlish
is_plain_lem p h = elim (Bool-cases (contains p.ctype (codes "text/html"))) [
  | inl e ↦ let clash : false ≡ true = rw e at h in cc
  | inr e ↦ elim (Bool-cases (looks_like_html p.body)) [
    | inl f ↦ let clash : false ≡ true = rw (e, f) at h in cc
    | inr f ↦ f
  ]
]

choose_part-plain :
    (h q : Option Part)
    → ((p : Part) → q ≡ some p → looks_like_html p.body ≡ false)
    → choose_part h q ≡ first_or q h
unfolding choose_part
choose_part-plain none none k = refl
choose_part-plain (some h) none k = refl
choose_part-plain h (some p) k = rw (k p refl) refl

-- the loop over the parts leaves what `preferred` says
pub chosen-keep_parts : (ps : List Part) → chosen (keep_parts ps nothing_kept) ≡ preferred ps
chosen-keep_parts ps = rw (keep_parts-found ps none none) (
    choose_part-plain (find_first (λ p. is_htmlish p) ps) (find_first (λ p. is_plain p) ps)
      (λ p e. is_plain_lem p (find_first-holds (λ x. is_plain x) ps p e)))
