-- ===== src/Flags/OneCharset.antt =====
-- The character set flags under turn_flag (flag.c).
use sklaffkom.Base.{
  ℕ, ◌+◌, ◌≤◌, arith, Bytes, Bool, List, [], ◌∷◌, none, some, Option, All, ℤ, if◌then◌else◌,
  Bool-cases, inl, inr,
}
use sklaffkom.Flags.{Flags}
use sklaffkom.Flags.Turning.{
  on, Setter, set_ibm, set_iso8859, set_mac, set_utf8, Branch, meant, branches, choose,
  save_changed, turn_chosen, turn_flag, down_string,
}

abbrev pub count : ℤ → ℕ
count value = if on value then 1 else 0

-- the number of the character sets that are on, the SF7 of the login among them
abbrev pub charsets : Flags → ℕ
charsets f = count f.ibm + count f.iso8859 + count f.mac + count f.utf8 + count f.force_sf7

abbrev Kept : Option Flags → Type 0
Kept none = Unit
Kept (some f) = charsets f ≤ 1

-- The branch leaves at most one character set on.
abbrev Keeps : Setter → Type 0
Keeps sets = (mode : ℤ) (f : Flags) → charsets f ≤ 1 → Kept (sets mode f)

set_ibm-Kept : Keeps set_ibm
set_ibm-Kept mode f h = ground arith

set_iso8859-Kept : Keeps set_iso8859
set_iso8859-Kept mode f h = ground arith

set_mac-Kept : Keeps set_mac
set_mac-Kept mode f h = ground arith

set_utf8-Kept : Keeps set_utf8
set_utf8-Kept mode f h = ground arith

-- a branch for another flag
elsewhere : (mode : ℤ) (f : Flags) → charsets f ≤ 1 → charsets f ≤ 1
elsewhere mode f h = h

abbrev BranchKeeps : Branch → Type 0
BranchKeeps b = Keeps b.sets

branches-BranchKeeps : All BranchKeeps branches
branches-BranchKeeps = (
  set_ibm-Kept,
  (
    set_iso8859-Kept,
    (
      set_mac-Kept,
      (
        elsewhere,
        (
          elsewhere,
          (
            elsewhere,
            (
              elsewhere,
              (
                elsewhere,
                (
                  elsewhere,
                  (
                    elsewhere,
                    (
                      elsewhere,
                      (
                        elsewhere,
                        (
                          elsewhere,
                          (
                            elsewhere,
                            (
                              elsewhere,
                              (
                                elsewhere,
                                (
                                  elsewhere,
                                  (
                                    elsewhere,
                                    (
                                      elsewhere,
                                      (set_utf8-Kept, (elsewhere, (elsewhere, (elsewhere, tt)))),
                                    ),
                                  ),
                                ),
                              ),
                            ),
                          ),
                        ),
                      ),
                    ),
                  ),
                ),
              ),
            ),
          ),
        ),
      ),
    ),
  ),
)

abbrev Safe : Option Setter → Type 0
Safe none = Unit
Safe (some sets) = Keeps sets

choose-Safe : (flag : Bytes) (bs : List Branch) → All BranchKeeps bs → Safe (choose flag bs)
unfolding choose
choose-Safe flag [] h = tt
choose-Safe flag (b ∷ bs) h = elim (Bool-cases (meant flag b)) [
  | inl e ↦ rw e h.0
  | inr e ↦ rw e (choose-Safe flag bs h.1)
]

save_changed-Kept :
    (saves : Flags → Bool) (f : Flags) (new : Option Flags)
    → charsets f ≤ 1
    → Kept new
    → charsets (save_changed saves f new).1 ≤ 1
save_changed-Kept saves f none h k = h
save_changed-Kept saves f (some new) h k = k

turn_chosen-Safe :
    (saves : Flags → Bool) (mode : ℤ) (f : Flags) (chosen : Option Setter)
    → charsets f ≤ 1
    → Safe chosen
    → charsets (turn_chosen saves mode f chosen).1 ≤ 1
turn_chosen-Safe saves mode f none h s = h
turn_chosen-Safe saves mode f (some sets) h s =
    save_changed-Kept saves f (sets mode f) h (s mode f h)

-- turn_flag keeps at most one character set on, of IBM-PC, ISO 8859-1, Macintosh, UTF-8 and the SF7
-- forced at login, whatever it is called with, and whether the flags can be saved or not.
pub charsets-turn_flag :
    (saves : Flags → Bool) (mode : ℤ) (flag : Bytes) (f : Flags)
    → charsets f ≤ 1
    → charsets (turn_flag saves mode flag f).1 ≤ 1
unfolding turn_flag
charsets-turn_flag saves mode [] f h = h
charsets-turn_flag saves mode (c ∷ flag) f h =
    turn_chosen-Safe saves mode f (choose (down_string (c ∷ flag)) branches) h
      (choose-Safe (down_string (c ∷ flag)) branches branches-BranchKeeps)
