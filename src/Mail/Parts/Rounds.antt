-- ===== src/Mail/Parts/Rounds.antt =====
-- One round of the loop of extract_best_part in mailbody.c ends, and takes bytes of the message.
use sklaffkom.Mail.Headers.{parse_part_headers}
use sklaffkom.Base.{
  ℕ, refl, none, some, Bytes, Option, ◌≢◌, ◌≤◌, length, ◌≡◌, drop, arith, take, codes, ◌+◌, ◌∷◌,
  suc, [], zero, ◌<◌, ◌-◌, Bool-cases, inl, ◌⊎◌, inr, ltb, length-drop,
}
use sklaffkom.Libc.{strstr, is_prefix}
use sklaffkom.Mail.Parts.{
  Run, done, past_end, stuck, skip_newline, behind_break, find_body_start, ◌>>=◌, part_round,
  or_end, next_marker, Part, part_kept, KeptParts, copy_range, parse_part_headers, keep_best, go_on,
  is_multipart_type, behind_marker, skip_bytes,
}
use sklaffkom.Mail.Parts.Search.{length-strstr}

-- a run that ends goes on with a run that ends
pub bind_ends :
    {A B : Type 0} (r : Run A) (k : A → Run B)
    → r ≢ stuck
    → ((a : A) → r ≡ done a → k a ≢ stuck)
    → (r >>= k) ≢ stuck
bind_ends (done a) k h next = next a refl
bind_ends past_end k h next = λ e. cc
bind_ends stuck k h next = absurd (h refl)

length-drop_exact : (n : ℕ) (s : Bytes) → n ≤ length s → length (drop n s) + n ≡ length s
length-drop_exact zero s h = omega arith
length-drop_exact (suc n) [] h = absurd (omega arith)
length-drop_exact (suc n) (x ∷ s) h = omega (arith, length-drop_exact n s (omega arith))

length-skip_newline : (s : Bytes) → length (skip_newline s) ≤ length s
length-skip_newline [] = omega arith
length-skip_newline (c ∷ s) = ground (arith, length-drop 1 s)

length-take : (n : ℕ) (s : Bytes) → length (take n s) ≤ length s
length-take zero s = omega arith
length-take (suc n) [] = omega arith
length-take (suc n) (x ∷ s) = omega (arith, length-take n s)

length-behind_break :
    (n : ℕ) (a b : Option Bytes) (t : Bytes)
    → ((u : Bytes) → a ≡ some u → length u ≤ n)
    → ((u : Bytes) → b ≡ some u → length u ≤ n)
    → behind_break a b ≡ some t
    → length t ≤ n
length-behind_break n (some u) b t ha hb e =
    let same : some (drop 4 u) ≡ some t = e in ground (arith, ha u refl, length-drop 4 u)
length-behind_break n none (some u) t ha hb e =
    let same : some (drop 2 u) ≡ some t = e in ground (arith, hb u refl, length-drop 2 u)
length-behind_break n none none t ha hb e = cc

pub length-find_body_start : (s t : Bytes) → find_body_start s ≡ some t → length t ≤ length s
unfolding find_body_start
length-find_body_start s t e =
    length-behind_break (length s) (strstr s (codes "\r\n\r\n")) (strstr s (codes "\n\n")) t
      (λ u. length-strstr s (codes "\r\n\r\n") u) (λ u. length-strstr s (codes "\n\n") u) e

length-or_end :
    (n : ℕ) (o : Option Bytes) → ((u : Bytes) → o ≡ some u → length u ≤ n) → length (or_end o) ≤ n
length-or_end n none h = omega arith
length-or_end n (some u) h = h u refl

length-next_marker : (body marker : Bytes) → length (next_marker body marker) ≤ length body
unfolding next_marker
length-next_marker body marker =
    length-or_end (length body) (strstr body marker) (λ u. length-strstr body marker u)

-- the recursive call ends on every string that is shorter than `n`
abbrev pub EndsBelow : ℕ → (Bytes → Run (Option Part)) → Type 0
EndsBelow n inner = (s : Bytes) → length s < n → inner s ≢ stuck

part_kept_ends :
    (inner : Bytes → Run (Option Part)) (start body next : Bytes) (kept : KeptParts)
    → inner (copy_range start next) ≢ stuck
    → part_kept inner start body next kept ≢ stuck
unfolding part_kept
part_kept_ends inner start body next kept h =
    let p = parse_part_headers (copy_range start body) in
    let nested =
      bind_ends (inner (copy_range start next)) (λ best. done (keep_best best kept)) h
        (λ best e f. cc) in
    elim (Bool-cases (is_multipart_type p.ctype)) [ inl e ↦ rw e nested | inr e ↦ rw e (λ f. cc) ]

part_round_ends :
    (n : ℕ) (inner : Bytes → Run (Option Part)) (marker start : Bytes) (body : Option Bytes)
    (kept : KeptParts)
    → EndsBelow n inner
    → length start < n
    → part_round inner marker start body kept ≢ stuck
unfolding part_round
part_round_ends n inner marker start none kept h lt = λ e. cc
part_round_ends n inner marker start (some body) kept h lt =
    let next = next_marker body marker in
    bind_ends (part_kept inner start body next kept) (go_on next)
      (part_kept_ends inner start body next kept
        (h _ (omega (arith, length-take (length start - length next) start))))
      (λ k e f. cc)

-- the length of what the loop goes on with
abbrev pub Below : ℕ → Option Bytes → Type 0
Below n none = Unit
Below n (some s) = length s < n

bound-next :
    (n : ℕ) (r : Run KeptParts) (next : Bytes) (a : KeptParts) (o : Option Bytes)
    → length next < n
    → (r >>= go_on next) ≡ done (a, o)
    → Below n o
bound-next n (done k) next a none h e = tt
bound-next n (done k) next a (some s) h e = ground arith
bound-next n past_end next a o h e = cc
bound-next n stuck next a o h e = cc

part_round-Below :
    (n : ℕ) (inner : Bytes → Run (Option Part)) (marker start : Bytes) (body : Option Bytes)
    (kept a : KeptParts) (o : Option Bytes)
    → ((u : Bytes) → body ≡ some u → length u < n)
    → part_round inner marker start body kept ≡ done (a, o)
    → Below n o
unfolding part_round
part_round-Below n inner marker start none kept a none h e = tt
part_round-Below n inner marker start none kept a (some s) h e = cc
part_round-Below n inner marker start (some body) kept a o h e =
    let next = next_marker body marker in
    bound-next n (part_kept inner start body next kept) next a o
      (omega (arith, length-next_marker body marker, h body refl)) e

pub behind_marker_ends :
    (n : ℕ) (inner : Bytes → Run (Option Part)) (marker : Bytes) (kept : KeptParts) (pos : Bytes)
    → EndsBelow n inner
    → length pos < n
    → behind_marker inner marker kept pos ≢ stuck
unfolding behind_marker
behind_marker_ends n inner marker kept pos h lt =
    let start = skip_newline pos in
    let rest =
      part_round_ends n inner marker start (find_body_start start) kept h
        (omega (arith, length-skip_newline pos)) in
    elim (Bool-cases (is_prefix (codes "--") pos)) [ inl e ↦ rw e (λ f. cc) | inr e ↦ rw e rest ]

ended :
    (n : ℕ) (kept a : KeptParts) (o : Option Bytes)
    → ◌≡◌ {A = Run (KeptParts × Option Bytes)} (done (kept, none)) (done (a, o))
    → Below n o
ended n kept a none f = tt
ended n kept a (some s) f = cc

pub behind_marker-Below :
    (n : ℕ) (inner : Bytes → Run (Option Part)) (marker : Bytes) (kept : KeptParts) (pos : Bytes)
    (a : KeptParts) (o : Option Bytes)
    → length pos < n
    → behind_marker inner marker kept pos ≡ done (a, o)
    → Below n o
unfolding behind_marker
behind_marker-Below n inner marker kept pos a o lt e =
    let start = skip_newline pos in
    let below =
      part_round-Below n inner marker start (find_body_start start) kept a o
        (λ u f. omega (arith, length-find_body_start start u f, length-skip_newline pos)) in
    elim (Bool-cases (is_prefix (codes "--") pos)) [
      | inl f ↦ ended n kept a o (rw f at e)
      | inr f ↦ below (rw f at e)
    ]

pub skip_bytes_cases :
    (n : ℕ) (s : Bytes)
    → 0 < n
    → (skip_bytes n s ≡ past_end)
      ⊎ ((t : Bytes) × (skip_bytes n s ≡ done t) × (length t < length s))
skip_bytes_cases n s h = elim (Bool-cases (ltb (length s) n)) [
  | inl e ↦ inl (rw e refl)
  | inr e ↦ inr (drop n s, rw e refl, omega (arith, length-drop_exact n s (ground arith)))
]
