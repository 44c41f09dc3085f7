-- ===== src/Flags/Turning.antt =====
-- flag.c: turn_flag, with down_string of lib/down_string.c. What is printed is left out.
use sklaffkom.Base.{
  ℕ, [], ◌∷◌, List, Bytes, codes, length, leb, ltb, ◌+◌, Bool, not, ◌&&◌, ◌||◌, Option, none, some,
  if◌then◌else◌, ℤ, pos, failure, eqb_ℤ,
}
use sklaffkom.Libc.{is_prefix}
use sklaffkom.Flags.{Flags}

-- one byte of down_string
abbrev pub down : ℕ → ℕ
down c = if ltb 64 c && ltb c 94 then c + 32 else c

unfoldable pub down_string : Bytes → Bytes
down_string [] = []
down_string (c ∷ str) = down c ∷ down_string str

-- is the flag on
abbrev pub on : ℤ → Bool
on value = not (eqb_ℤ value (pos 0))

-- What a branch of turn_flag does to the flags; `none` where it prints a warning and stops.
abbrev pub Setter : Type 0
Setter = ℤ → Flags → Option Flags

abbrev pub unforced : ℤ → Flags → ℤ
unforced mode f = if on mode then pos 0 else f.force_sf7

abbrev pub set_ibm : Setter
set_ibm mode f =
    if on mode && (on f.iso8859 || on f.mac || on f.utf8)
    then none
    else some (record f { ibm = mode; force_sf7 = unforced mode f })

abbrev pub set_iso8859 : Setter
set_iso8859 mode f =
    if on mode && (on f.ibm || on f.mac || on f.utf8)
    then none
    else some (record f { iso8859 = mode; force_sf7 = unforced mode f })

abbrev pub set_mac : Setter
set_mac mode f =
    if on mode && (on f.ibm || on f.iso8859 || on f.utf8)
    then none
    else some (record f { mac = mode; force_sf7 = unforced mode f })

abbrev pub set_utf8 : Setter
set_utf8 mode f =
    if on mode && (on f.ibm || on f.iso8859 || on f.mac)
    then none
    else some (record f { utf8 = mode; force_sf7 = unforced mode f })

-- A branch: the name, the number of bytes that it needs, and what it does.
pub record Branch : Type 0 where
  pub name : Bytes
  pub least : ℕ
  pub sets : Setter

-- `(strstr(name, flag) == name) && (i >= least)`
abbrev pub meant : Bytes → Branch → Bool
meant flag b = is_prefix flag b.name && leb b.least (length flag)

-- the branches in their order, with the Swedish names; the fourth one has `i > 1` for its test, and the
-- last one of the source is not taken where IBOL_LOGOUT_COUNT is 0
abbrev pub branches : List Branch
branches =
    record { name = codes "ibm-pc"; least = 2; sets = set_ibm }
    ∷ record { name = codes "iso 8859-1"; least = 2; sets = set_iso8859 }
    ∷ record { name = codes "mac"; least = 2; sets = set_mac }
    ∷ record {
      name = codes "n{rvaro";
      least = 2;
      sets = λ mode f. some (record f { present = mode });
    }
    ∷ record { name = codes "skrik"; least = 2; sets = λ mode f. some (record f { shout = mode }) }
    ∷ record {
      name = codes "sluta";
      least = 2;
      sets = λ mode f. some (record f { end_default = mode });
    }
    ∷ record { name = codes "s{g"; least = 2; sets = λ mode f. some (record f { say = mode }) }
    ∷ record {
      name = codes "{rende{ndring";
      least = 1;
      sets = λ mode f. some (record f { subject_change = mode });
    }
    ∷ record {
      name = codes "mellanslag";
      least = 1;
      sets = λ mode f. some (record f { space = mode });
    }
    ∷ record { name = codes "kopia"; least = 3; sets = λ mode f. some (record f { copy = mode }) }
    ∷ record {
      name = codes "f|rfattare";
      least = 1;
      sets = λ mode f. some (record f { author = mode });
    }
    ∷ record { name = codes "datum"; least = 1; sets = λ mode f. some (record f { date = mode }) }
    ∷ record { name = codes "pip"; least = 1; sets = λ mode f. some (record f { beep = mode }) }
    ∷ record { name = codes "rensa"; least = 1; sets = λ mode f. some (record f { clear = mode }) }
    ∷ record {
      name = codes "header";
      least = 1;
      sets = λ mode f. some (record f { header = mode });
    }
    ∷ record {
      name = codes "kompatibilitet";
      least = 3;
      sets = λ mode f. some (record f { special = mode });
    }
    ∷ record {
      name = codes "bell";
      least = 1;
      sets = λ mode f. some (record f { presbeep = mode });
    }
    ∷ record {
      name = codes "gammal";
      least = 1;
      sets = λ mode f. some (record f { old_who = mode });
    }
    ∷ record {
      name = codes "ansi";
      least = 2;
      sets = λ mode f. some (record f { ansi_output = mode });
    }
    ∷ record { name = codes "utf8"; least = 1; sets = set_utf8 }
    ∷ record {
      name = codes "alternativ";
      least = 2;
      sets = λ mode f. some (record f { alternate_intro = mode });
    }
    ∷ record {
      name = codes "rookie";
      least = 2;
      sets = λ mode f. some (record f { rookie_mode = mode });
    }
    ∷ record {
      name = codes "brevl}dan";
      least = 3;
      sets = λ mode f. some (record f { start_mailbox = mode });
    }
    ∷ []

-- the first branch that is meant
unfoldable pub choose : Bytes → List Branch → Option Setter
choose flag [] = none
choose flag (b ∷ bs) = let further = choose flag bs in if meant flag b then some b.sets else further

-- a changed flag is saved; `saves` says whether save_flags succeeds
abbrev pub save_changed : (Flags → Bool) → Flags → Option Flags → ℤ × Flags
save_changed saves f none = (pos 0, f)
save_changed saves f (some new) = (if saves new then pos 0 else failure, new)

abbrev pub turn_chosen : (Flags → Bool) → ℤ → Flags → Option Setter → ℤ × Flags
turn_chosen saves mode f none = (pos 0, f)
turn_chosen saves mode f (some sets) = save_changed saves f (sets mode f)

unfoldable pub turn_flag : (Flags → Bool) → ℤ → Bytes → Flags → ℤ × Flags
turn_flag saves mode [] f = (pos 0, f)
turn_flag saves mode (c ∷ flag) f =
    turn_chosen saves mode f (choose (down_string (c ∷ flag)) branches)
