-- ===== src/Ftn/Links.antt =====
-- The links of an area and its primary feed (ftnconfig.c).
use sklaffkom.Base.{
  ◌≡◌, refl, ◌∙◌, ap, sym, Option, arith, Bytes, false, ◌==◌, List, [], ◌∷◌, ◌++◌, some, none, All,
  ◌>>=◌,
}
use sklaffkom.Ftn.{
  FtnAddress, FtnLink, address_text, append_link, parse_link, marked_feed, ftn_area_primary_feed,
}
use sklaffkom.Ftn.RoundTrip.{IsShort, parse-address_text}

abbrev pub NoFeed : FtnLink → Type 0
NoFeed l = (l.modifier == b'%') ≡ false

marked_feed-append :
    (links more : List FtnLink) → All NoFeed links → marked_feed (links ++ more) ≡ marked_feed more
unfolding marked_feed
marked_feed-append [] more h = refl
marked_feed-append (l ∷ links) more h = rw h.0 (marked_feed-append links more h.1)

marked_feed-kept :
    (l : FtnLink) (links more : List FtnLink)
    → marked_feed links ≡ some l
    → marked_feed (links ++ more) ≡ some l
unfolding marked_feed
marked_feed-kept l [] more h = cc
marked_feed-kept l (x ∷ links) more h = ground (arith, marked_feed-kept l links more)

-- append_link adds one link at the end.
added_last :
    (links new : List FtnLink) (parsed : Option FtnLink)
    → (parsed >>= (λ link. some (links ++ link ∷ []))) ≡ some new
    → (more : List FtnLink) × (links ++ more ≡ new)
added_last links new none h = cc
added_last links new (some link) h = (link ∷ [], ground arith)

append_link-last :
    (links new : List FtnLink) (text : Bytes)
    → append_link links text ≡ some new
    → (more : List FtnLink) × (links ++ more ≡ new)
unfolding append_link
append_link-last links new [] h = cc
append_link-last links new (c ∷ text) h = added_last links new (parse_link c text) h

feed_is :
    (l : FtnLink) (links : List FtnLink)
    → marked_feed links ≡ some l
    → ftn_area_primary_feed links ≡ some l
unfolding ftn_area_primary_feed
feed_is l links h = rw h

-- The first link marked `%` stays the primary feed of the area whatever text append_link then
-- accepts as a further link.
pub ftn_area_primary_feed-kept :
    (l : FtnLink) (links new : List FtnLink) (text : Bytes)
    → marked_feed links ≡ some l
    → append_link links text ≡ some new
    → ftn_area_primary_feed new ≡ some l
ftn_area_primary_feed-kept l links new text marked added =
    let (more, shape) = append_link-last links new text added in
    feed_is l new (ap marked_feed (sym shape) ∙ marked_feed-kept l links more marked)

-- append_link of `%` and a printed address of 16-bit numbers, to links of which none is marked `%`,
-- succeeds, and makes that address the primary feed of the area.
pub ftn_area_primary_feed-append_link :
    (links : List FtnLink) (a : FtnAddress)
    → IsShort a
    → All NoFeed links
    → (new : List FtnLink) × (append_link links (b'%' ∷ address_text a) ≡ some new)
      × (ftn_area_primary_feed new ≡ some (record { address = a; modifier = b'%' }))
unfolding append_link marked_feed
ftn_area_primary_feed-append_link links a h none_marked = (
  links ++ record { address = a; modifier = b'%' } ∷ [],
  rw (parse-address_text a h) refl,
  feed_is (record { address = a; modifier = b'%' })
      (links ++ record { address = a; modifier = b'%' } ∷ [])
      (marked_feed-append links (record { address = a; modifier = b'%' } ∷ []) none_marked),
)
