-- ===== src/Access/Types.antt =====
-- The types of conferences (sklaff.h), as pairs of a transport and an access.
use sklaffkom.Base.{◌≡◌, arith, true, ℤ, pos, negsuc, leb_ℤ}
use sklaffkom.Access.{
  conf_access_type, conf_is_news, conf_is_ftn, conf_transport_type, conf_make_type,
}

-- A type with an access is put together again from its transport and its access by conf_make_type, so
-- that no two types have the same pair.
pub conf_make_type-split :
    (type : ℤ)
    → leb_ℤ (pos 0) (conf_access_type type) ≡ true
    → conf_make_type (conf_transport_type type) (conf_access_type type) ≡ type
unfolding conf_access_type conf_is_news conf_is_ftn conf_transport_type conf_make_type
conf_make_type-split (negsuc n) h = cc
conf_make_type-split (pos n) h = ground arith

-- Where conf_make_type gives a type, that type has the transport and the access it was made of.
pub split-conf_make_type :
    (transport access : ℤ)
    → leb_ℤ (pos 0) (conf_make_type transport access) ≡ true
    → (conf_access_type (conf_make_type transport access) ≡ access)
      × (conf_transport_type (conf_make_type transport access) ≡ transport)
unfolding conf_access_type conf_is_news conf_is_ftn conf_transport_type conf_make_type
split-conf_make_type (pos t) (pos a) h = ground arith
split-conf_make_type (negsuc t) (pos a) h = ground arith
split-conf_make_type t (negsuc a) h = cc
