-- ===== src/Tests/Database.antt =====
-- The conference database, the search of texts, and next_text, of conf.c and text.c.
use sklaffkom.Base.{
  ℕ, ◌≡◌, ◌≢◌, refl, false, some, List, [], ◌∷◌, arith, Bytes, pos, negsuc, ◌||◌, ◌==◌, ℤ, codes,
  Bool, All, failure,
}
use sklaffkom.Confs.Search.{render}
use sklaffkom.Database.{
  ConfEntry, stringify_conf_struct, conf_store_entry, get_conf_struct, is_creator, is_conf_creator,
  last_text,
}
use sklaffkom.Database.Codec.{Fits}
use sklaffkom.Database.Search.{database}
use sklaffkom.Database.Store.{conf_store_entry-database, leftover}
use sklaffkom.Database.Lookups.{get_conf_struct-database}
use sklaffkom.Next.{next_text}
use sklaffkom.Next.Liveness.{next_text-IsNext}
use sklaffkom.Next.Spec.{Advances, IsNext}
use sklaffkom.RawIo.{Calls, open_file, working, working-Works}
use sklaffkom.Libc.{print_int, print_nat, print_fuel}
use sklaffkom.Tests.{first, second, both-AllWellFormed, file, ConfsEntry}
use sklaffkom.Texts.{TextFiles, last_in}
use sklaffkom.Texts.First.{IsOldest}

-- conference 1 with six texts, and conference 4 with none
abbrev lobby : ConfEntry
lobby = record {
  num = pos 1;
  last_text = pos 6;
  creator = pos 7;
  time = pos 1700000000;
  type = pos 0;
  life = pos 365;
  comconf = negsuc 0;
  name = codes "Lobby";
}

abbrev empty : ConfEntry
empty = record lobby { num = pos 4; last_text = pos 0; name = codes "Empty" }

lobby-Fits : Fits lobby
lobby-Fits = record {
  num = omega arith;
  last_text = omega arith;
  creator = omega arith;
  time = omega arith;
  type = omega arith;
  life = omega arith;
  comconf = omega arith;
  name = (refl, (refl, (refl, (refl, (refl, tt)))));
}

empty-Fits : Fits empty
empty-Fits = record {
  num = omega arith;
  last_text = omega arith;
  creator = omega arith;
  time = omega arith;
  type = omega arith;
  life = omega arith;
  comconf = omega arith;
  name = (refl, (refl, (refl, (refl, (refl, tt)))));
}

both-Fits : All Fits (lobby ∷ empty ∷ [])
both-Fits = (lobby-Fits, (empty-Fits, tt))

-- Of the texts of conference 1, the third and the sixth exist.
abbrev third_and_sixth : ℕ → Bool
third_and_sixth n = n == 3 || n == 6

one_zero : ◌≢◌ {A = ℕ} 1 0
one_zero e = omega arith

abbrev files : TextFiles
files = record {
  mbox = working;
  mailbox = [];
  calls = working;
  database = database (lobby ∷ empty ∷ []);
  exists = third_and_sixth;
}

third-IsOldest : IsOldest third_and_sixth 6 3
third-IsOldest = record {
  low = omega arith;
  high = omega arith;
  before = λ n h. ground arith;
  dense = λ n low high. ground arith;
}

six : last_in files (pos 1) ≡ some (pos 6)
six =
    (get_conf_struct-database working working-Works (pos 1) (lobby ∷ empty ∷ []) both-Fits refl).2
      working []

-- The texts 1, 2, 3 and 5 are read: the fourth is skipped, and the sixth is the next one.
next_text-IsNext_example :
    (text : ℕ) × (new : List ConfsEntry) × (next_text 7
        (λ k. record { reading = working; writing = working })
        files
        1
        (pos 0)
        file
      ≡ some (record { value = pos text; nexttext = pos text; file = render new }))
    × Advances third_and_sixth 1 6 (first ∷ second ∷ []) new
    × IsNext third_and_sixth 1 6 new text
next_text-IsNext_example =
    next_text-IsNext files (λ k. record { reading = working; writing = working }) 1 6 3 7 (pos 0)
      (first ∷ second ∷ []) one_zero six (omega arith) third-IsOldest
      (λ k. (working-Works, working-Works)) both-AllWellFormed refl (omega arith)

get_conf_struct-database_example :
    (get_conf_struct working (pos 4) (database (lobby ∷ empty ∷ [])) ≡ some (some empty))
    × ((u_num : ℤ)
        → is_conf_creator working u_num (pos 4) (database (lobby ∷ empty ∷ []))
          ≡ some (is_creator u_num (some empty)))
    × ((mbox : Calls) (mailbox : Bytes)
        → last_text mbox mailbox working (database (lobby ∷ empty ∷ [])) (pos 4) ≡ some (pos 0))
get_conf_struct-database_example =
    get_conf_struct-database working working-Works (pos 4) (lobby ∷ empty ∷ []) both-Fits refl

-- ftruncate fails
abbrev no_cut : Calls
no_cut = record working { truncates = false }

abbrev renamed : ConfEntry
renamed = record lobby { name = codes "Hall" }

conf_store_entry-database_example :
    conf_store_entry no_cut renamed (database (lobby ∷ empty ∷ []))
    ≡ some (failure, leftover (database (renamed ∷ empty ∷ [])) (database (lobby ∷ empty ∷ [])))
unfolding open_file stringify_conf_struct print_int print_nat print_fuel
conf_store_entry-database_example =
    conf_store_entry-database no_cut renamed (lobby ∷ empty ∷ []) both-Fits (omega arith)
