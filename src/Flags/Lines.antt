-- ===== src/Flags/Lines.antt =====
-- One flag in the text of save_flags (flag.c).
use sklaffkom.Base.{
  ℕ, ◌≡◌, refl, ◌∙◌, ap, sym, Bytes, false, ◌==◌, List, [], ◌∷◌, ◌++◌, Option, none, some, ℤ, inl,
  inr, All, All-append, append_assoc, Option-cases,
}
use sklaffkom.Libc.{strstr, print_int, isdigit}
use sklaffkom.Libc.Decimal.{
  Lacks, print_int-Lacks, print_int-append, IsInt, atoi-print_int, atoi-space,
}
use sklaffkom.Libc.Search.{strchr_next-found}
use sklaffkom.Flags.{flag_value, value_at, print_line, print_lines}
use sklaffkom.Flags.Strings.{strstr-skip, strstr-found, strstr-missed, strstr-Lacks}

-- A key without a blank, whose first byte is none of those between the names of two lines.
pub record IsKey (k : ℕ) (key : Bytes) : Type 0 where
  pub blank : Lacks b' ' (k ∷ key)
  pub digit : isdigit k ≡ false
  pub dash : (b'-' == k) ≡ false
  pub space : (b' ' == k) ≡ false
  pub equals : (b'=' == k) ≡ false
  pub newline : (b'\n' == k) ≡ false

-- A line whose name has no `=`, with an int behind it.
abbrev pub IsLine : Bytes × ℤ → Type 0
IsLine (name, value) = Lacks b'=' name × IsInt value

abbrev pub pick : ℤ → Option Bytes → ℤ → ℤ
pick value none further = further
pick value (some b) further = value

-- the value of the first line whose name has the key in it
abbrev pub first_value : List (Bytes × ℤ) → Bytes → ℤ → ℤ
first_value [] key default = default
first_value ((name, value) ∷ ls) key default =
    pick value (strstr name key) (first_value ls key default)

line-missed :
    (k : ℕ) (key name rest : Bytes) (value : ℤ)
    → IsKey k key
    → strstr name (k ∷ key) ≡ none
    → strstr (print_line name value rest) (k ∷ key) ≡ strstr rest (k ∷ key)
line-missed k key name rest value h e =
    strstr-missed k key name (61 ∷ 32 ∷ print_int value (10 ∷ rest)) h.blank e
    ∙ ap (λ t. strstr (61 ∷ 32 ∷ t) (k ∷ key)) (print_int-append value (10 ∷ []) rest)
    ∙ strstr-skip k key (61 ∷ 32 ∷ print_int value (10 ∷ [])) rest
        (h.equals, (h.space, print_int-Lacks k value (10 ∷ []) h.digit h.dash (h.newline, tt)))

value-found :
    (b rest : Bytes) (value : ℤ)
    → Lacks b'=' b
    → IsInt value
    → value_at (b ++ b' ' ∷ b'=' ∷ b' ' ∷ print_int value (b'\n' ∷ rest)) ≡ some value
value-found b rest value h fits =
    let number = print_int value (10 ∷ rest) in
    ap value_at (sym (append_assoc b (32 ∷ []) (61 ∷ 32 ∷ number)))
    ∙ rw (strchr_next-found (b ++ 32 ∷ []) 61 (32 ∷ number) (All-append _ b (32 ∷ []) h (refl, tt)))
        (ap some (atoi-space number ∙ atoi-print_int value (10 ∷ rest) fits refl))

pub flag_value-print_lines :
    (k : ℕ) (key : Bytes) (ls : List (Bytes × ℤ)) (default : ℤ)
    → IsKey k key
    → All IsLine ls
    → flag_value (print_lines ls) (k ∷ key) default ≡ some (first_value ls (k ∷ key) default)
unfolding flag_value print_lines
flag_value-print_lines k key [] default h w = unfold strstr in refl
flag_value-print_lines k key ((name, value) ∷ ls) default h w =
    elim (Option-cases (strstr name (k ∷ key))) [
      | inl e ↦
          rw (line-missed k key name (print_lines ls) value h e, e)
            (flag_value-print_lines k key ls default h w.1)
      | inr (b, e) ↦
          rw
            (
              strstr-found k key name (61 ∷ 32 ∷ print_int value (10 ∷ print_lines ls)) b h.blank e,
              e,
            )
            (value-found b (print_lines ls) value (strstr-Lacks 61 k key name b w.0.0 e) w.0.1)
    ]
