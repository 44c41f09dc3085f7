-- ===== src/Tests/Formats.antt =====
-- Names, character sets, one-liners and FidoNet addresses, of lib/sort_util.c, utf.c, iboldb.c and
-- ftnconfig.c.
use sklaffkom.Base.{◌≡◌, refl, some, [], ◌∷◌, arith, Bytes, pos, codes, List}
use sklaffkom.Libc.{strtol_errno}
use sklaffkom.Charset.{sf7_to_utf8_dup, utf8_to_sf7_dup}
use sklaffkom.Charset.RoundTrip.{utf8_to_sf7_dup-sf7_to_utf8_dup}
use sklaffkom.Oneliners.{IbolRecord, ibol_db_write_record, ibol_db_parse_line}
use sklaffkom.Oneliners.RoundTrip.{IsStorable, ibol_db_parse_line-ibol_db_write_record}
use sklaffkom.Ftn.{
  FtnAddress, FtnLink, ftn_address_parse, ftn_address_format, append_link, parse_number,
  marked_feed, parse_point, address_text, ftn_area_primary_feed,
}
use sklaffkom.Ftn.Links.{ftn_area_primary_feed-append_link}
use sklaffkom.Ftn.RoundTrip.{IsShort, ftn_address_parse-ftn_address_format}

utf8_to_sf7_dup-sf7_to_utf8_dup_example :
    utf8_to_sf7_dup (sf7_to_utf8_dup (b'h' ∷ b'|' ∷ [])) ≡ b'h' ∷ b'|' ∷ []
utf8_to_sf7_dup-sf7_to_utf8_dup_example =
    utf8_to_sf7_dup-sf7_to_utf8_dup (b'h' ∷ b'|' ∷ []) (refl, (refl, tt))

abbrev greeting : Bytes
greeting = b'h' ∷ b'|' ∷ []

-- "Bo Ek (KTH)"
abbrev name : Bytes
name = codes "Bo Ek (KTH)"

abbrev oneliner : IbolRecord
oneliner = record {
  timestamp = pos 1700000000;
  msgid = codes "2:203/2 1f";
  author = codes "Bo";
  source = codes "A: B";
  text = b'h' ∷ b'\n' ∷ b'\\' ∷ [];
}

oneliner-IsStorable : IsStorable oneliner 1700000000
oneliner-IsStorable = record {
  stamp = refl;
  range = omega arith;
  named = refl;
  msgid = omega arith;
  author = omega arith;
  source = omega arith;
  text = omega arith;
}

ibol_db_parse_line-ibol_db_write_record_example :
    ibol_db_parse_line (ibol_db_write_record oneliner) ≡ some oneliner
ibol_db_parse_line-ibol_db_write_record_example =
    ibol_db_parse_line-ibol_db_write_record oneliner 1700000000 oneliner-IsStorable

abbrev node : FtnAddress
node = record { zone = 2; net = 203; node = 2; point = 0 }

node-IsShort : IsShort node
node-IsShort = record {
  zone = omega arith;
  net = omega arith;
  node = omega arith;
  point = omega arith;
}

ftn_address_parse-ftn_address_format_example :
    (out : Bytes) × (ftn_address_format node 64 ≡ some out) × (ftn_address_parse out ≡ some node)
ftn_address_parse-ftn_address_format_example =
    ftn_address_parse-ftn_address_format node 64 node-IsShort (omega arith)

abbrev plain_link : FtnLink
plain_link = record { address = node; modifier = 0 }

ftn_area_primary_feed-append_link_example :
    (new : List FtnLink) × (append_link (plain_link ∷ []) (b'%' ∷ address_text node) ≡ some new)
    × (ftn_area_primary_feed new ≡ some (record { address = node; modifier = b'%' }))
ftn_area_primary_feed-append_link_example =
    ftn_area_primary_feed-append_link (plain_link ∷ []) node node-IsShort (refl, tt)

abbrev feed : FtnLink
feed = record { address = node; modifier = b'%' }

feed_marked : marked_feed (feed ∷ []) ≡ some feed
unfolding marked_feed
feed_marked = refl

link_added :
    append_link (feed ∷ []) (codes "%1:2/3")
    ≡ some (
        feed
        ∷ record { address = record { zone = 1; net = 2; node = 3; point = 0 }; modifier = b'%' }
        ∷ [])
unfolding append_link ftn_address_parse parse_number parse_point strtol_errno
link_added = refl
