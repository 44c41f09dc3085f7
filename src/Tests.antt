-- ===== src/Tests.antt =====
-- The theorems on concrete data: here a `confs` file of two conferences.
mod Reading
mod Access
mod Formats
mod Switches
mod Database
mod Tosser
mod Active
mod Users
mod Mail
mod Sklaffrc
mod Commands
use sklaffkom.Base.{
  ℕ, ◌≡◌, refl, true, false, some, List, [], ◌∷◌, arith, Bytes, pos, not, ◌++◌, ◌&&◌, if◌then◌else◌,
  ◌==◌, ◌||◌, ℤ, length, codes, leb_ℤ, eqb_ℤ, ◌+◌, ◌≤◌, ◌*◌, All, inr, inl,
}
use sklaffkom.Stacks.{
  Session, pop_unread, pop_unread2, pop_read, pop_comment, push_unread, push_unread2, push_read,
  push_comment, clear_comment,
}
use sklaffkom.Stacks.Laws.{pop-push, clear_comment-empties}
use sklaffkom.Intervals.{Intervals, covers, mark, unmark}
use sklaffkom.Intervals.Order.{IsSeparated, separated_unique}
use sklaffkom.Intervals.Marking.{mark_lem}
use sklaffkom.Intervals.Unmarking.{unmark_lem, unmark-mark}
use sklaffkom.Intervals.Counting.{subtract_lengths, count_unread, subtract_lengths-count_unread}
use sklaffkom.Confs.{ConfsEntry, get_confs_entry, stringify_confs_struct, entry, replace_confs}
use sklaffkom.Confs.Codec.{get_confs_entry-stringify}
use sklaffkom.Confs.Search.{render, put}
use sklaffkom.Confs.Replace.{replace_confs-render}
use sklaffkom.RawIo.{open_file, working, working-Works, locked_within, open_file-locked_within}
use sklaffkom.Reading.{check_if_read, mark_as_read, mark_as_unread, num_unread, member_of}
use sklaffkom.Reading.Spec.{IsWellFormed, AllWellFormed, is_member, is_read}
use sklaffkom.Reading.Marks.{check_if_read-is_read}
use sklaffkom.Reading.Refines.{Marks, Unmarks, mark_as_read-Marks, mark_as_unread-Unmarks}
use sklaffkom.Reading.Counts.{texts_unread, num_unread-texts_unread, member_of-is_member}
use sklaffkom.Libc.{strtol_errno, print_int, print_nat, print_fuel}
use sklaffkom.Flags.{print_lines, Flags, flag_lines, saved_flags, set_flags, default_flags}
use sklaffkom.Flags.RoundTrip.{HasInt, IsBit, set_flags-saved_flags, saved_flags-fits}
use sklaffkom.Flags.Unique.{count_meant, count_meant-branches}
use sklaffkom.Flags.Turning.{branches, turn_flag, choose, down_string}
use sklaffkom.Flags.OneCharset.{charsets, charsets-turn_flag}
use sklaffkom.Access.{
  can_see_conf, conf_access_type, conf_transport_type, conf_make_type, get_confrc_users, is,
  on_list,
}
use sklaffkom.Access.Types.{conf_make_type-split, split-conf_make_type}
use sklaffkom.Access.Rights.{render_users, get_confrc_users-render_users, can_see_conf-sees}
use sklaffkom.Charset.{sf7_to_utf8_dup, utf8_to_sf7_dup}
use sklaffkom.Charset.RoundTrip.{utf8_to_sf7_dup-sf7_to_utf8_dup, sf7_to_utf8_dup-utf8_to_sf7_dup}
use sklaffkom.Charset.Sizes.{converted-fits}
use sklaffkom.Names.{order_name, reorder_name}
use sklaffkom.Names.Order.{order_name-reorder_name}
use sklaffkom.Oneliners.{
  IbolRecord, write_escaped, parse_decoded_field, ibol_db_write_record, ibol_db_parse_line,
}
use sklaffkom.Oneliners.Fields.{parse_decoded_field-write_escaped}
use sklaffkom.Oneliners.RoundTrip.{IsStorable, ibol_db_parse_line-ibol_db_write_record}
use sklaffkom.Ftn.{
  FtnAddress, FtnLink, ftn_address_parse, ftn_address_format, address_text, append_link,
  ftn_area_primary_feed, parse_number, marked_feed, parse_point,
}
use sklaffkom.Ftn.RoundTrip.{IsShort, ftn_address_parse-ftn_address_format}
use sklaffkom.Reading.Undo.{mark_as_unread-mark_as_read}

-- conference 1 with the texts 1 to 3 and 5 read, conference 4 with none read
abbrev pub read_some : Intervals
read_some = record { from = 1; to = 3 } ∷ record { from = 5; to = 5 } ∷ []

abbrev pub first : ConfsEntry
first = record { num = 1; il = read_some }

abbrev pub second : ConfsEntry
second = record { num = 4; il = [] }

pub first-IsWellFormed : IsWellFormed first
first-IsWellFormed = record {
  fits = (omega arith, (omega arith, omega arith, (omega arith, omega arith, tt)));
  ordered = (omega arith, omega arith, (omega arith, omega arith, tt));
}

pub second-IsWellFormed : IsWellFormed second
second-IsWellFormed = record { fits = (omega arith, tt); ordered = tt }

pub both-AllWellFormed : AllWellFormed (first ∷ second ∷ [])
both-AllWellFormed = (first-IsWellFormed, (second-IsWellFormed, tt))

abbrev pub file : Bytes
file = render (first ∷ second ∷ [])
