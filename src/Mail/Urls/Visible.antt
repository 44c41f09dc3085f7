-- ===== src/Mail/Urls/Visible.antt =====
-- What clean_url of mailbody.c makes of a link has no white space and is not empty.
use sklaffkom.Mail.Urls.Spec.{clean_params-step}
use mathlib.Core.Path.{subst}
use sklaffkom.Base.{
  ℕ, zero, suc, refl, inl, inr, [], ◌∷◌, true, false, Bool-cases, none, some, Bytes, ◌<◌, Bool, ◌≡◌,
  All, Option, All-append, arith, ◌&&◌, ◌==◌, length, ◌++◌,
}
use sklaffkom.Libc.{before, strchr_next}
use sklaffkom.Mail.Urls.{
  clean_url, clean_query, clean_params, param_of, behind_param, skip_amp, with_param, is_tracked,
  ends_param, has,
}

-- a byte of a link: no white space
abbrev pub Visible : ℕ → Type 0
Visible c = 32 < c

before-All : (s : Bytes) (c : ℕ) → All Visible s → All Visible (before s c)
unfolding before
before-All [] c h = tt
before-All (x ∷ s) c (hx, hs) = elim (Bool-cases (x == c)) [
  | inl e ↦ rw e tt
  | inr e ↦ rw e (hx, before-All s c hs)
]

strchr_next-All :
    (s : Bytes) (c : ℕ) (t : Bytes) → All Visible s → strchr_next s c ≡ some t → All Visible t
unfolding strchr_next
strchr_next-All [] c t h e = cc
strchr_next-All (x ∷ s) c t (hx, hs) e = elim (Bool-cases (x == c)) [
  | inl f ↦
      let same : some s ≡ some t = rw f at e in
      let eq : s ≡ t = cc in subst (λ u. All Visible u) eq hs
  | inr f ↦ strchr_next-All s c t hs (rw f at e)
]

param_of-All : (s : Bytes) → All Visible s → All Visible (param_of s)
unfolding param_of
param_of-All [] h = tt
param_of-All (c ∷ s) (hc, hs) = elim (Bool-cases (ends_param c)) [
  | inl e ↦ rw e tt
  | inr e ↦ rw e (hc, param_of-All s hs)
]

behind_param-All : (s : Bytes) → All Visible s → All Visible (behind_param s)
unfolding behind_param
behind_param-All [] h = tt
behind_param-All (c ∷ s) (hc, hs) = elim (Bool-cases (ends_param c)) [
  | inl e ↦ rw e (hc, hs)
  | inr e ↦ rw e (behind_param-All s hs)
]

skip_amp-All : (s : Bytes) → All Visible s → All Visible (skip_amp s)
skip_amp-All [] h = tt
skip_amp-All (c ∷ s) (hc, hs) = elim (Bool-cases (c == b'&')) [
  | inl e ↦ rw e hs
  | inr e ↦ rw e (hc, hs)
]

with_param-All :
    (tracked first : Bool) (param : Bytes) (rest : Bytes × Bool)
    → All Visible param
    → All Visible rest.0
    → All Visible (with_param tracked first param rest).0
with_param-All true first param (out, changed) hp ho = ho
with_param-All false true param (out, changed) hp ho =
    (omega arith, All-append (λ c. Visible c) param out hp ho)
with_param-All false false param (out, changed) hp ho =
    (omega arith, All-append (λ c. Visible c) param out hp ho)

clean_params-All :
    (f : ℕ) (first : Bool) (p : Bytes) → All Visible p → All Visible (clean_params f first p).0
clean_params-All zero first p h = unfold clean_params in tt
clean_params-All (suc f) first [] h = unfold clean_params in tt
clean_params-All (suc f) first (c ∷ p) h =
    rw (clean_params-step f first c p) (elim (Bool-cases (c == b'#')) [
      | inl e ↦ rw e h
      | inr e ↦
          let t = is_tracked (param_of (c ∷ p)) in
          let rest = skip_amp (behind_param (c ∷ p)) in
          rw e (
            with_param-All t first (param_of (c ∷ p)) (clean_params f (first && t) rest)
              (param_of-All (c ∷ p) h)
              (clean_params-All f (first && t) rest
                (skip_amp-All (behind_param (c ∷ p)) (behind_param-All (c ∷ p) h))))
    ])

clean_query-All :
    (url : Bytes) (query : Option Bytes)
    → All Visible url
    → ((q : Bytes) → query ≡ some q → All Visible q)
    → All Visible (clean_query url query).0
unfolding clean_query
clean_query-All url none h k = h
clean_query-All url (some q) h k = elim (Bool-cases (has (before url b'?') b'#')) [
  | inl e ↦ rw e h
  | inr e ↦ rw e (
      All-append (λ c. Visible c) (before url b'?') (clean_params (length q) true q).0
        (before-All url b'?' h) (clean_params-All (length q) true q (k q refl)))
]

pub clean_url-Visible : (url : Bytes) → All Visible url → All Visible (clean_url url).0
unfolding clean_url
clean_url-Visible url h =
    clean_query-All url (strchr_next url b'?') h (λ q e. strchr_next-All url b'?' q h e)

clean_query-cons :
    (c : ℕ) (u : Bytes) (query : Option Bytes)
    → (c == b'?') ≡ false
    → (v : Bytes) × ((clean_query (c ∷ u) query).0 ≡ c ∷ v)
unfolding clean_query before
clean_query-cons c u none h = (u, refl)
clean_query-cons c u (some q) h = elim (Bool-cases (has (before (c ∷ u) b'?') b'#')) [
  | inl e ↦ (u, rw e refl)
  | inr e ↦ (before u b'?' ++ (clean_params (length q) true q).0, rw e (rw h refl))
]

-- a cleaned link still has its first letter
pub clean_url-cons :
    (c : ℕ) (u : Bytes) → (c == b'?') ≡ false → (v : Bytes) × ((clean_url (c ∷ u)).0 ≡ c ∷ v)
unfolding clean_url
clean_url-cons c u h = clean_query-cons c u (strchr_next (c ∷ u) b'?') h
