-- ===== src/Active/Entries.antt =====
-- The first entry of a user in a list of entries, after a change of the list.
use mathlib.Core.Path.{subst}
use sklaffkom.Active.Codec.{Fits}
use sklaffkom.Active.{ActiveEntry, is_user}
use sklaffkom.Base.{
  Bool, true, false, ◌≡◌, refl, sym, ap, ◌∙◌, Option, none, some, List, [], ◌∷◌, All, ℤ,
  replace_first, remove_first, Bool-cases, inl, inr, eqb_ℤ-sound,
}
use sklaffkom.Active.Changes.{entry_of}

abbrev pub is_some : Option ActiveEntry → Bool
is_some none = false
is_some (some ae) = true

pub user_of :
    (uid : ℤ) (es : List ActiveEntry) (ae : ActiveEntry) → entry_of uid es ≡ some ae → ae.user ≡ uid
user_of uid [] ae h = cc
user_of uid (e ∷ es) ae h = elim (Bool-cases (is_user uid e)) [
  | inl here ↦
      let same : some e ≡ some ae = rw here at h in
      let same' : e ≡ ae = cc in sym (ap (λ x. x.user) same') ∙ eqb_ℤ-sound e.user uid here
  | inr there ↦ user_of uid es ae (rw there at h)
]

pub remove_first-none :
    (uid : ℤ) (es : List ActiveEntry) → entry_of uid es ≡ none → remove_first (is_user uid) es ≡ es
remove_first-none uid [] h = refl
remove_first-none uid (e ∷ es) h = elim (Bool-cases (is_user uid e)) [
  | inl here ↦ let no_entry : some e ≡ none = rw here at h in cc
  | inr there ↦ rw there (ap (◌∷◌ e) (remove_first-none uid es (rw there at h)))
]

pub replaced_entry :
    (uid : ℤ) (new old : ActiveEntry) (es : List ActiveEntry)
    → entry_of uid es ≡ some old
    → is_user uid new ≡ true
    → entry_of uid (replace_first (is_user uid) new es) ≡ some new
replaced_entry uid new old [] h is = cc
replaced_entry uid new old (e ∷ es) h is = elim (Bool-cases (is_user uid e)) [
  | inl here ↦ rw (here, is) refl
  | inr there ↦ rw (there, there) (replaced_entry uid new old es (rw there at h) is)
]

pub replaced-Fits :
    (uid : ℤ) (new : ActiveEntry) (es : List ActiveEntry)
    → Fits new
    → All Fits es
    → All Fits (replace_first (is_user uid) new es)
replaced-Fits uid new [] h fits = tt
replaced-Fits uid new (e ∷ es) h fits = elim (Bool-cases (is_user uid e)) [
  | inl here ↦ rw here (h, fits.1)
  | inr there ↦ rw there (fits.0, replaced-Fits uid new es h fits.1)
]

pub entry-Fits :
    (uid : ℤ) (ae : ActiveEntry) (es : List ActiveEntry)
    → All Fits es
    → entry_of uid es ≡ some ae
    → Fits ae
entry-Fits uid ae [] fits h = cc
entry-Fits uid ae (e ∷ es) fits h = elim (Bool-cases (is_user uid e)) [
  | inl here ↦
      let same : some e ≡ some ae = rw here at h in
      let same' : e ≡ ae = cc in subst Fits same' fits.0
  | inr there ↦ entry-Fits uid ae es fits.1 (rw there at h)
]
