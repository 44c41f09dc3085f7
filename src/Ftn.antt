-- ===== src/Ftn.antt =====
-- ftnconfig.c: FidoNet addresses `zone:net/node.point`. The numbers of an address are not negative.
pub mod RoundTrip
pub mod Links
use sklaffkom.Base.{
  ℕ, [], ◌∷◌, Bytes, Bool, true, false, ◌&&◌, Option, none, some, ◌==◌, leb, if◌then◌else◌, ◌>>=◌,
  ℤ, pos, negsuc, take, ◌-◌, ◌||◌, List, ◌++◌,
}
use sklaffkom.Libc.{print_nat, strtol_errno}

-- struct ftn_address
pub record FtnAddress : Type 0 where
  pub zone : ℕ
  pub net : ℕ
  pub node : ℕ
  pub point : ℕ

-- the test of what strtol gave
abbrev pub small_number : ℤ × Bytes → Option (ℕ × Bytes)
small_number (pos n, end) = if leb n 65535 then some (n, end) else none
small_number (negsuc n, end) = none

-- parse_number: the value and the place behind it, or -1
unfoldable pub parse_number : Bytes → Option (ℕ × Bytes)
parse_number text = strtol_errno text >>= small_number

-- `*p++ != c` is -1
abbrev pub expect : ℕ → Bytes → Option Bytes
expect c [] = none
expect c (x ∷ p) = if x == c then some p else none

-- the number behind a `.`, or 0
unfoldable pub parse_point : Bytes → Option (ℕ × Bytes)
parse_point [] = some (0, [])
parse_point (c ∷ p) = if c == b'.' then parse_number p else some (0, c ∷ p)

-- `*p != '\0'` is -1
abbrev pub at_end : Bytes → FtnAddress → Option FtnAddress
at_end [] address = some address
at_end (c ∷ p) address = none

unfoldable pub ftn_address_parse : Bytes → Option FtnAddress
ftn_address_parse text = do
  zone ← parse_number text
  colon ← expect b':' zone.1
  net ← parse_number colon
  slash ← expect b'/' net.1
  node ← parse_number slash
  point ← parse_point node.1
  at_end point.1 (record { zone = zone.0; net = net.0; node = node.0; point = point.0 })

unfoldable pub ftn_address_equal : FtnAddress → FtnAddress → Bool
ftn_address_equal a b = a.zone == b.zone && a.net == b.net && a.node == b.node && a.point == b.point

-- what snprintf prints
abbrev pub address_text : FtnAddress → Bytes
address_text a =
    if a.point == 0
    then print_nat a.zone (b':' ∷ print_nat a.net (b'/' ∷ print_nat a.node []))
    else print_nat a.zone
        (b':' ∷ print_nat a.net (b'/' ∷ print_nat a.node (b'.' ∷ print_nat a.point [])))

-- ftn_address_format: the string in `out`, of which snprintf keeps `outsz - 1` bytes; `none` where
-- nothing is written
unfoldable pub ftn_address_format : FtnAddress → ℕ → Option Bytes
ftn_address_format address outsz =
    if outsz == 0 then none else some (take (outsz - 1) (address_text address))

-- struct ftn_link; the modifier is 0 if there is none
pub record FtnLink : Type 0 where
  pub address : FtnAddress
  pub modifier : ℕ

abbrev pub is_modifier : ℕ → Bool
is_modifier c = c == b'!' || c == b'@' || c == b'%'

abbrev pub link_of : ℕ → Bytes → Option FtnLink
link_of modifier p = do
  address ← ftn_address_parse p
  some (record { address = address; modifier = modifier })

abbrev pub parse_link : ℕ → Bytes → Option FtnLink
parse_link c text = if is_modifier c then link_of c text else link_of 0 (c ∷ text)

-- append_link on the links of an area
unfoldable pub append_link : List FtnLink → Bytes → Option (List FtnLink)
append_link links [] = none
append_link links (c ∷ text) = do link ← parse_link c text; some (links ++ link ∷ [])

-- the loop of ftn_area_primary_feed
unfoldable pub marked_feed : List FtnLink → Option FtnLink
marked_feed [] = none
marked_feed (l ∷ links) = if l.modifier == b'%' then some l else marked_feed links

abbrev pub only_link : List FtnLink → Option FtnLink
only_link (l ∷ []) = some l
only_link _ = none

abbrev pub feed_or_only : List FtnLink → Option FtnLink → Option FtnLink
feed_or_only links (some l) = some l
feed_or_only links none = only_link links

unfoldable pub ftn_area_primary_feed : List FtnLink → Option FtnLink
ftn_area_primary_feed links = feed_or_only links (marked_feed links)

-- the loop of find_aka over the addresses of the configuration
unfoldable pub find_aka : List FtnAddress → FtnAddress → Option FtnAddress
find_aka [] address = none
find_aka (aka ∷ akas) address =
    if ftn_address_equal aka address then some aka else find_aka akas address
