-- ===== src/Mail/Urls/Spec.antt =====
-- clean_url of mailbody.c against a description that splits the query, filters it and joins it.
use sklaffkom.Libc.{strchr_next, before}
use sklaffkom.Base.{
  inl, inr, ◌≤◌, Bool-cases, ℕ, List, Bool, Bytes, false, ◌∷◌, [], if◌then◌else◌, ◌||◌, ◌++◌, ◌==◌,
  length, ◌≡◌, arith, suc, zero, refl, true, none, some, ◌&&◌, append_assoc, Option,
}
use sklaffkom.Mail.Urls.{
  is_tracked, separator, clean_params, param_of, behind_param, strchr_next, skip_amp, before, has,
  clean_url, with_param, clean_query,
}

abbrev with_byte : ℕ → List Bytes → List Bytes
with_byte c [] = (c ∷ []) ∷ []
with_byte c (p ∷ ps) = (c ∷ p) ∷ ps

-- the parameters of a query; one that is empty at the very end is none
abbrev pub split_params : Bytes → List Bytes
split_params [] = []
split_params (c ∷ s) = if c == b'&' then [] ∷ split_params s else with_byte c (split_params s)

-- the query before a `#`, and what follows from there
abbrev pub query_of : Bytes → Bytes
query_of [] = []
query_of (c ∷ s) = if c == b'#' then [] else c ∷ query_of s

abbrev pub fragment_of : Bytes → Bytes
fragment_of [] = []
fragment_of (c ∷ s) = if c == b'#' then c ∷ s else fragment_of s

abbrev pub untracked : List Bytes → List Bytes
untracked [] = []
untracked (p ∷ ps) = if is_tracked p then untracked ps else p ∷ untracked ps

abbrev pub any_tracked : List Bytes → Bool
any_tracked [] = false
any_tracked (p ∷ ps) = is_tracked p || any_tracked ps

-- `?` before the first parameter, `&` before the others
abbrev pub joined : Bool → List Bytes → Bytes
joined first [] = []
joined first (p ∷ ps) = separator first ∷ p ++ joined false ps

-- the first parameter of a query is the one that a round of the loop takes
round_lem :
    (c : ℕ) (p : Bytes)
    → (c == b'#') ≡ false
    → (split_params (query_of (c ∷ p))
        ≡ param_of (c ∷ p) ∷ split_params (query_of (skip_amp (behind_param (c ∷ p)))))
      × (fragment_of (c ∷ p) ≡ fragment_of (skip_amp (behind_param (c ∷ p))))
unfolding param_of behind_param
round_lem c [] e = elim (Bool-cases (c == b'&')) [
  | inl amp ↦ rw (e, amp) (rw amp (refl, refl))
  | inr amp ↦ rw (e, amp) (refl, refl)
]
round_lem c (d ∷ p) e = elim (Bool-cases (c == b'&')) [
  | inl amp ↦ rw (e, amp) (rw amp (refl, refl))
  | inr amp ↦ elim (Bool-cases (d == b'#')) [
    | inl f ↦
        let other : (d == b'&') ≡ false = ground arith in
        rw (e, amp, f, other) (rw other (rw f (refl, refl)))
    | inr f ↦ let (ih, frag) = round_lem d p f in rw (e, amp, ih, frag) (refl, refl)
  ]
]

length-behind_param : (p : Bytes) → length (behind_param p) ≤ length p
unfolding behind_param
length-behind_param [] = omega arith
length-behind_param (c ∷ p) = ground (arith, length-behind_param p)

length-skip_amp : (p : Bytes) → length (skip_amp p) ≤ length p
length-skip_amp [] = omega arith
length-skip_amp (c ∷ p) = ground arith

round_shrinks :
    (c : ℕ) (p : Bytes) → (c == b'#') ≡ false → length (skip_amp (behind_param (c ∷ p))) ≤ length p
unfolding behind_param
round_shrinks c p e = elim (Bool-cases (c == b'&')) [
  | inl amp ↦ rw (e, amp) (rw amp (omega arith))
  | inr amp ↦ rw (e, amp) (omega (arith, length-skip_amp (behind_param p), length-behind_param p))
]

-- what the loop makes of a query
abbrev cleaned : Bool → Bytes → Bytes × Bool
cleaned first p =
    let params = split_params (query_of p) in
    (joined first (untracked params) ++ fragment_of p, any_tracked params)

-- one round of the loop
pub clean_params-step :
    (f : ℕ) (first : Bool) (c : ℕ) (p : Bytes)
    → clean_params (suc f) first (c ∷ p) ≡ (
        let tracked = is_tracked (param_of (c ∷ p)) in
        let rest = clean_params f (first && tracked) (skip_amp (behind_param (c ∷ p))) in
        if c == b'#' then (c ∷ p, false) else with_param tracked first (param_of (c ∷ p)) rest)
unfolding clean_params
clean_params-step f first c p = refl

with_param-cleaned :
    (first tracked : Bool) (param rest : Bytes)
    → with_param tracked first param (cleaned (first && tracked) rest) ≡ (
      joined first (
            if tracked
            then untracked (split_params (query_of rest))
            else param ∷ untracked (split_params (query_of rest)))
          ++ fragment_of rest,
      tracked || any_tracked (split_params (query_of rest)),
    )
with_param-cleaned true true param rest = refl
with_param-cleaned false true param rest = refl
with_param-cleaned true false param rest = rw append_assoc refl
with_param-cleaned false false param rest = rw append_assoc refl

clean_params-cleaned :
    (f : ℕ) (first : Bool) (p : Bytes) → length p ≤ f → clean_params f first p ≡ cleaned first p
clean_params-cleaned zero first [] h = unfold clean_params in refl
clean_params-cleaned zero first (c ∷ p) h = absurd (omega arith)
clean_params-cleaned (suc f) first [] h = unfold clean_params in refl
clean_params-cleaned (suc f) first (c ∷ p) h = elim (Bool-cases (c == b'#')) [
  | inl e ↦ rw (clean_params-step f first c p, e) refl
  | inr e ↦
      let (split, frag) = round_lem c p e in
      let t = is_tracked (param_of (c ∷ p)) in
      let rest = skip_amp (behind_param (c ∷ p)) in
      let ih = clean_params-cleaned f (first && t) rest (omega (arith, round_shrinks c p e)) in
      rw (clean_params-step f first c p, ih, split, frag, e)
        (with_param-cleaned first t (param_of (c ∷ p)) rest)
]

-- the link, given what stands behind its first `?`
abbrev pub link_of : Bytes → Option Bytes → Bytes × Bool
link_of url none = (url, false)
link_of url (some query) =
    let params = split_params (query_of query) in
    if has (before url b'?') b'#' then (url, false) else (
      before url b'?' ++ (joined true (untracked params) ++ fragment_of query),
      any_tracked params,
    )

-- what clean_url should make of a link
unfoldable pub clean_link : Bytes → Bytes × Bool
unfolding strchr_next
clean_link url = link_of url (strchr_next url b'?')

clean_query-link_of :
    (url : Bytes) (query : Option Bytes) → clean_query url query ≡ link_of url query
unfolding clean_query
clean_query-link_of url none = refl
clean_query-link_of url (some query) =
    rw (clean_params-cleaned (length query) true query (omega arith)) refl

-- clean_url gives the link without its tracking parameters: what stands before the first `?`, the
-- other parameters in their order, `?` before the first of them and `&` before each other one, and
-- the fragment; and it says that the link is changed exactly when a parameter was left out. A link
-- without a query, or with a `#` before its `?`, stays as it is. A `&` at the end of a query, and the
-- `?` of an empty query, are dropped without a mark.
pub clean_url-clean_link : (url : Bytes) → clean_url url ≡ clean_link url
unfolding clean_url clean_link
clean_url-clean_link url = clean_query-link_of url (strchr_next url b'?')
