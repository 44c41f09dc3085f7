-- ===== src/Mail/Urls.antt =====
-- mailbody.c: clean_url, which takes the tracking parameters out of the query of a link.
pub mod Spec
pub mod Visible
use sklaffkom.Base.{
  ℕ, zero, suc, Bool, true, false, ◌&&◌, ◌||◌, Option, none, some, [], ◌∷◌, ◌++◌, Bytes, codes,
  length, ltb, leb, ◌==◌, if◌then◌else◌, not,
}
use sklaffkom.Libc.{before, strchr_next, is_prefix, same_string}

-- whether strncmp finds the start of a link
abbrev pub is_url_start : Bytes → Bool
is_url_start s = is_prefix (codes "http://") s || is_prefix (codes "https://") s

abbrev pub url_char : ℕ → Bool
url_char c = ltb 32 c && not (c == b'<' || c == b'>' || c == b'"')

unfoldable pub is_tracking_param : Bytes → Bool
is_tracking_param key =
    is_prefix (codes "utm_") key
    || same_string key (codes "ecid")
    || same_string key (codes "_hsenc")
    || same_string key (codes "_hsmi")
    || same_string key (codes "hsCtaTracking")

abbrev pub ends_param : ℕ → Bool
ends_param c = c == b'&' || c == b'#'

-- the bytes from param_start to param_end, and those from param_end on
unfoldable pub param_of : Bytes → Bytes
param_of [] = []
param_of (c ∷ s) = if ends_param c then [] else c ∷ param_of s

unfoldable pub behind_param : Bytes → Bytes
behind_param [] = []
behind_param (c ∷ s) = if ends_param c then c ∷ s else behind_param s

abbrev pub skip_amp : Bytes → Bytes
skip_amp [] = []
skip_amp (c ∷ s) = if c == b'&' then s else c ∷ s

-- whether the key of a parameter, which ends at the first equals sign, is one of the tracking keys
unfoldable pub is_tracked : Bytes → Bool
unfolding is_tracking_param before
is_tracked param = is_tracking_param (before param b'=')

abbrev pub separator : Bool → ℕ
separator first = if first then b'?' else b'&'

-- what is put into `out` from a round on, and whether `changed` is set
abbrev pub with_param : Bool → Bool → Bytes → Bytes × Bool → Bytes × Bool
with_param true first param (out, changed) = (out, true)
with_param false first param (out, changed) = (separator first ∷ param ++ out, changed)

-- The loop over the query, and what is copied behind it. A round takes a byte at least, so the
-- length of the query is enough rounds.
unfoldable pub clean_params : ℕ → Bool → Bytes → Bytes × Bool
unfolding is_tracked param_of behind_param
clean_params zero first p = ([], false)
clean_params (suc f) first [] = ([], false)
clean_params (suc f) first (c ∷ p) =
    let tracked = is_tracked (param_of (c ∷ p)) in
    let rest = clean_params f (first && tracked) (skip_amp (behind_param (c ∷ p))) in
    if c == b'#' then (c ∷ p, false) else with_param tracked first (param_of (c ∷ p)) rest

unfoldable pub has : Bytes → ℕ → Bool
unfolding strchr_next
has s c = elim (strchr_next s c) [ none ↦ false | some behind ↦ true ]

-- the link, given what stands behind its first `?`
unfoldable pub clean_query : Bytes → Option Bytes → Bytes × Bool
unfolding strchr_next before clean_params
clean_query url none = (url, false)
clean_query url (some query) =
    let cleaned = clean_params (length query) true query in
    if has (before url b'?') b'#' then (url, false) else (before url b'?' ++ cleaned.0, cleaned.1)

-- the new link, and whether it is changed
unfoldable pub clean_url : Bytes → Bytes × Bool
unfolding strchr_next clean_query
clean_url url = clean_query url (strchr_next url b'?')
