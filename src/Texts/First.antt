-- ===== src/Texts/First.antt =====
-- The search of first_text (conf.c).
use sklaffkom.Base.{
  ℕ, zero, suc, ◌+◌, ◌-◌, ◌/◌, ◌≤◌, ◌<◌, Bool, true, false, ◌||◌, ◌≡◌, refl, some, arith, ltb, leb,
  ℤ, pos, Bool-cases, inl, inr, ◌==◌,
}
use sklaffkom.Texts.{
  TextFiles, last_in, Bounds, exists_back, narrow, first_loop, first_before, first_text,
  count_existing_texts,
}

-- one of the texts n, n - 1, n - 2 and n - 3
abbrev pub exists_near : (ℕ → Bool) → ℕ → Bool
exists_near exists n =
    exists n || exists_back exists n 1 || exists_back exists n 2 || exists_back exists n 3

-- `d` is the oldest text, or the last one: no text exists before it, and from it up to the last one
-- at most three numbers in a row are missing.
pub record IsOldest (exists : ℕ → Bool) (last d : ℕ) : Type 0 where
  pub low : 1 ≤ d
  pub high : d ≤ last
  pub before : (n : ℕ) → n < d → exists n ≡ false
  pub dense : (n : ℕ) → d ≤ n → n < last → exists_near exists n ≡ true

-- what the loop keeps: `d` is between its bounds, and `ptr` is one of them
record Around (d : ℕ) (b : Bounds) : Type 0 where
  pub low : b.first ≤ d
  pub high : d ≤ b.last
  pub at : ((b.ptr == b.first) || (b.ptr == b.last)) ≡ true

-- A round of the loop keeps that, and brings the bounds closer.
record Narrows (d last : ℕ) (old new : Bounds) : Type 0 where
  pub around : Around d new
  pub top : new.last ≤ last
  pub less : new.last - new.first < old.last - old.first

module _ (exists : ℕ → Bool) (last d : ℕ) (old : IsOldest exists last d) where
  reached : (q : ℕ) → exists q ≡ true → d ≤ q
  reached q e = elim (Bool-cases (ltb q d)) [
    | inl l ↦ let none : exists q ≡ false = old.before q (ground arith) in cc
    | inr l ↦ ground arith
  ]

  lower :
      (b : Bounds) (q : ℕ)
      → Around d b
      → b.last ≤ last
      → exists q ≡ true
      → q < b.last
      → b.first < b.last
      → Narrows d last b (record { first = b.first; last = q; ptr = q })
  lower b q a top e h more = record {
    around = record { low = a.low; high = reached q e; at = ground arith };
    top = omega arith;
    less = omega arith;
  }

  upper :
      (b : Bounds) (ptr : ℕ)
      → Around d b
      → b.last ≤ last
      → exists_near exists ptr ≡ false
      → b.first ≤ ptr
      → ptr < b.last
      → Narrows d last b (record { first = ptr + 1; last = b.last; ptr = ptr + 1 })
  upper b ptr a top e from to =
      let below : ptr < d = elim (Bool-cases (leb d ptr)) [
        | inl l ↦
            let near : exists_near exists ptr ≡ true = old.dense ptr (ground arith) (omega arith) in
            ground arith
        | inr l ↦ ground arith
      ] in
      record {
        around = record { low = omega arith; high = a.high; at = ground arith };
        top = top;
        less = omega arith;
      }

  narrow-Narrows :
      (b : Bounds)
      → Around d b
      → b.last ≤ last
      → b.first < b.last
      → Narrows d last b (narrow exists b)
  unfolding narrow
  narrow-Narrows b a top more =
      let ptr = (b.first + b.last) / 2 in
      let from : b.first ≤ (b.first + b.last) / 2 = omega arith in
      let to : (b.first + b.last) / 2 < b.last = omega arith in
      elim (Bool-cases (exists ptr)) [
        | inl e ↦ rw e (lower b ptr a top e to more)
        | inr e ↦ elim (Bool-cases (exists_back exists ptr 1)) [
          | inl e1 ↦ rw (e, e1) (lower b (ptr - 1) a top (ground arith) (omega arith) more)
          | inr e1 ↦ elim (Bool-cases (exists_back exists ptr 2)) [
            | inl e2 ↦ rw (e, e1, e2) (lower b (ptr - 2) a top (ground arith) (omega arith) more)
            | inr e2 ↦ elim (Bool-cases (exists_back exists ptr 3)) [
              | inl e3 ↦
                  rw (e, e1, e2, e3) (lower b (ptr - 3) a top (ground arith) (omega arith) more)
              | inr e3 ↦ rw (e, e1, e2, e3) (upper b ptr a top (ground arith) from to)
            ]
          ]
        ]
      ]

  first_loop_lem :
      (f : ℕ) (b : Bounds)
      → Around d b
      → b.last ≤ last
      → b.last - b.first < f
      → first_loop f exists b ≡ some d
  unfolding first_loop
  first_loop_lem zero b a top h = elim h [ ]
  first_loop_lem (suc f) b a top h = elim (Bool-cases (ltb b.first b.last)) [
    | inl more ↦
        let n = narrow-Narrows b a top (ground arith) in
        let less = n.less in
        rw more (first_loop_lem f (narrow exists b) n.around n.top (omega arith))
    | inr done ↦ rw done (ground (arith, a.low, a.high, a.at))
  ]

pub first_text-IsOldest :
    (files : TextFiles) (conf : ℤ) (last d : ℕ)
    → IsOldest files.exists last d
    → last_in files conf ≡ some (pos last)
    → (first_text files conf ≡ some d)
      × (count_existing_texts files conf (pos last) ≡ some (last - d + 1))
unfolding first_text first_before count_existing_texts
first_text-IsOldest files conf zero d old h =
    let low = old.low in let high = old.high in let no : 1 ≤ 0 = omega arith in elim no [ ]
first_text-IsOldest files conf (suc last) d old h =
    let found =
      first_loop_lem files.exists (suc last) d old (suc (suc last))
        (record { first = 1; last = suc last; ptr = 1 })
        (record { low = old.low; high = old.high; at = refl }) (omega arith) (omega arith) in
    let low = old.low in
    let high = old.high in
    (rw (h, first_text, found) refl, rw (h, first_text, found) (ground arith))
