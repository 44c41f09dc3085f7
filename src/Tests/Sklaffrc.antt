-- ===== src/Tests/Sklaffrc.antt =====
-- The file sklaffrc, of user.c.
use sklaffkom.Base.{
  pos, ◌≡◌, refl, true, false, none, some, [], Bytes, arith, codes, inl, inr, is_empty, ◌⊎◌,
  if◌then◌else◌,
}
use sklaffkom.Libc.{atol, strtol}
use sklaffkom.Sklaffrc.{
  Heading, ort, note, timeout, same_heading, Settings, numlines, close_heading, end_entry,
  before_mark, new_heading, at_mark, scan_round, scan_file, start_scan, cleared, store_entry,
  read_sklaffrc, sklaffrc_text, set_field,
}
use sklaffkom.Sklaffrc.Steps.{FitsField}
use sklaffkom.Sklaffrc.RoundTrip.{IsStorable, read_sklaffrc-sklaffrc_text}

-- a user with a town and a note of two lines
abbrev texts : Heading → Bytes
texts ort = codes "Lund"
texts note = codes "hej\n[!] du"
texts h = []

abbrev settings : Settings
settings = record { field = texts; lines = pos 24 }

ort-FitsField : FitsField ort (codes "Lund")
ort-FitsField = record { is_field = refl; short = omega arith; unmarked = refl }

note-FitsField : FitsField note (codes "hej\n[!] du")
note-FitsField = record { is_field = refl; short = omega arith; unmarked = refl }

texts_fit :
    (h : Heading)
    → same_heading h numlines ≡ false
    → (is_empty (texts h) ≡ true) ⊎ FitsField h (texts h)
texts_fit ort f = inr ort-FitsField
texts_fit note f = inr note-FitsField
texts_fit h f = inl refl

settings-IsStorable : IsStorable settings
settings-IsStorable = record { fits = texts_fit }

-- the file of the whole system
abbrev system_file : Bytes
system_file = codes "![timeout]\n30\n![Numlines]\n50\n"

abbrev system_settings : Settings
system_settings = record { field = set_field timeout (codes "30") (λ h. []); lines = pos 50 }

system_settings-scan_file :
    scan_file system_file (start_scan none (cleared (pos 24))) ≡ some system_settings
unfolding scan_file scan_round before_mark close_heading at_mark new_heading end_entry store_entry
    atol strtol
system_settings-scan_file = refl

read_sklaffrc-sklaffrc_text_example :
    (out : Settings) × (read_sklaffrc (some system_file) (some (sklaffrc_text settings)) (pos 24)
      ≡ some out)
    × ((k : Heading)
        → same_heading k numlines ≡ false
        → out.field k ≡ (if is_empty (texts k) then system_settings.field k else texts k))
    × (out.lines ≡ pos 50)
read_sklaffrc-sklaffrc_text_example =
    read_sklaffrc-sklaffrc_text system_file (pos 24) system_settings settings
      system_settings-scan_file settings-IsStorable
