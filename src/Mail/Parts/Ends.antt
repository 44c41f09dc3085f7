-- ===== src/Mail/Parts/Ends.antt =====
-- extract_best_part of mailbody.c comes to an end on every message.
use sklaffkom.Mail.Headers.{parse_part_headers}
use sklaffkom.Base.{
  ℕ, refl, none, some, Bytes, Option, ◌≢◌, ◌≤◌, length, ◌≡◌, arith, suc, zero, ◌<◌, Bool-cases, inl,
  inr,
}
use sklaffkom.Libc.{strstr}
use sklaffkom.Mail.Parts.{
  Run, done, stuck, find_body_start, Part, KeptParts, copy_range, parse_part_headers,
  is_multipart_type, behind_marker, parts_loop, marker_of, parts_of, boundary_of, nothing_kept,
  chosen, multipart, best_of, extract_best_part_rec, extract_best_part,
}
use sklaffkom.Mail.Parts.Search.{length-strstr}
use sklaffkom.Mail.Parts.Rounds.{
  bind_ends, length-find_body_start, EndsBelow, Below, behind_marker_ends, behind_marker-Below,
  skip_bytes_cases,
}

parts_loop_ends :
    (n : ℕ) (inner : Bytes → Run (Option Part)) (marker : Bytes) (f : ℕ) (pos : Option Bytes)
    (kept : KeptParts)
    → 0 < length marker
    → EndsBelow n inner
    → Below f pos
    → Below (suc n) pos
    → parts_loop inner marker f pos kept ≢ stuck
unfolding parts_loop
parts_loop_ends n inner marker f none kept hm hi hf hn = λ e. cc
parts_loop_ends n inner marker zero (some pos) kept hm hi hf hn = absurd (omega arith)
parts_loop_ends n inner marker (suc f) (some pos) kept hm hi hf hn =
    elim (skip_bytes_cases (length marker) pos hm) [
      | inl e ↦ rw e (λ g. cc)
      | inr (rest, e, lt) ↦ rw e (
          bind_ends (behind_marker inner marker kept rest)
            (λ (p : KeptParts × Option Bytes). parts_loop inner marker f p.1 p.0)
            (behind_marker_ends n inner marker kept rest hi (omega arith))
            (λ (p : KeptParts × Option Bytes) g.
              parts_loop_ends n inner marker f p.1 p.0 hm hi
                (behind_marker-Below f inner marker kept rest p.0 p.1 (omega arith) g)
                (behind_marker-Below (suc n) inner marker kept rest p.0 p.1 (omega arith) g)))
    ]

length-marker_of : (boundary : Bytes) → 0 < length (marker_of boundary)
length-marker_of boundary = omega arith

Below-strstr : (body marker : Bytes) → Below (suc (length body)) (strstr body marker)
Below-strstr body marker = found (strstr body marker) (λ u. length-strstr body marker u)
  where
    found :
        (o : Option Bytes)
        → ((u : Bytes) → o ≡ some u → length u ≤ length body)
        → Below (suc (length body)) o
    found none h = tt
    found (some u) h = omega (arith, h u refl)

multipart_ends :
    (inner : Bytes → Run (Option Part)) (body boundary : Bytes)
    → EndsBelow (length body) inner
    → multipart inner body boundary ≢ stuck
unfolding multipart
multipart_ends inner body boundary h =
    let marker = marker_of boundary in
    let first = Below-strstr body marker in
    bind_ends (parts_loop inner marker (suc (length body)) (strstr body marker) nothing_kept)
      (λ kept. done (chosen kept))
      (parts_loop_ends (length body) inner marker (suc (length body)) (strstr body marker)
        nothing_kept (length-marker_of boundary) h first first)
      (λ kept e f. cc)

parts_of_ends :
    (inner : Bytes → Run (Option Part)) (container : Part) (body : Bytes) (boundary : Option Bytes)
    → EndsBelow (length body) inner
    → parts_of inner container body boundary ≢ stuck
unfolding parts_of
parts_of_ends inner container body none h = λ e. cc
parts_of_ends inner container body (some boundary) h =
    let parts = multipart_ends inner body boundary h in
    elim (Bool-cases (is_multipart_type container.ctype)) [
      | inl e ↦ rw e parts
      | inr e ↦ rw e (λ f. cc)
    ]

best_of_ends :
    (inner : Bytes → Run (Option Part)) (msg : Bytes) (start : Option Bytes)
    → ((body : Bytes) → start ≡ some body → length body ≤ length msg)
    → EndsBelow (length msg) inner
    → best_of inner msg start ≢ stuck
unfolding best_of
best_of_ends inner msg none short h = λ e. cc
best_of_ends inner msg (some body) short h =
    let headers = copy_range msg body in
    parts_of_ends inner (parse_part_headers headers) body (boundary_of headers)
      (λ s lt. h s (omega (arith, short body refl)))

extract_best_part_rec_ends :
    (f : ℕ) (msg : Bytes) → length msg < f → extract_best_part_rec f msg ≢ stuck
unfolding extract_best_part_rec
extract_best_part_rec_ends zero msg h = absurd (omega arith)
extract_best_part_rec_ends (suc f) msg h =
    best_of_ends (extract_best_part_rec f) msg (find_body_start msg)
      (λ body. length-find_body_start msg body)
      (λ s lt. extract_best_part_rec_ends f s (omega arith))

-- The fuel of extract_best_part is enough on every message, however its parts are nested: it returns,
-- or it reads behind the end of the message, `past_end`, which is as far as the model goes.
extract_best_part_ends : (msg : Bytes) → extract_best_part msg ≢ stuck
unfolding extract_best_part
extract_best_part_ends msg = extract_best_part_rec_ends (suc (length msg)) msg (omega arith)
