-- ===== src/Lib.antt =====
-- SklaffKOM, a conference system for UNIX in C: what users have read, kept in text files of their own,
-- and the formats around it.
--
-- The program runs once for each user who is logged in. Texts stand in conferences; which texts a user
-- has read is a file `confs` in the user's directory, one line for each conference that the user is
-- a member of, with the read texts as intervals. Every function that needs it opens and locks the
-- file, reads it whole, looks for the line of the conference, and writes the whole file back.
--
-- Base.antt holds the shared names (Boolean tests, lists over native numbers, signed integers), and
-- Libc.antt the functions of the C library that the program calls on strings: strchr, strrchr, strstr,
-- strtol, atol, atoi and the printing of numbers, as the C standard has them, which are no part of the
-- program.
--
-- Stacks.antt (text.c): the linked lists of unread and read texts and of comments, as lists of nodes.
-- Intervals.antt (text.c, conf.c): what mark_as_read, mark_as_unread, check_if_read and num_unread do
--   with the interval list of one conference. Order gives the order of the lists, Marking, Unmarking
--   and Counting the proofs.
-- Confs.antt (buf.c, conf.c): get_confs_entry, stringify_confs_struct and replace_confs on the bytes
--   of the file. Codec, Search, Lines and Replace hold the proofs.
-- RawIo.antt (lib/rawio.c): open_file, read_file, write_file and close_file over the outcomes of the
--   system calls, which are a record that every caller takes (`Calls`); `Works` says that they succeed.
-- Reading.antt (text.c, conf.c): mark_as_read, mark_as_unread, check_if_read, num_unread and member_of,
--   each from the bytes of the file to the return value and the new bytes. Spec says what a file
--   stands for, and Refines, Counts, Undo and Listed hold the theorems. Room is about how much longer a
--   line of the file gets.
--
-- Access.antt (sklaff.h, conf.c, buf.c): the types of conferences as pairs of a transport and an
--   access, conf_right, the confrc file, and can_see_conf.
-- Charset.antt (utf.c): the converters between SF7 and UTF-8.
-- Names.antt (lib/sort_util.c): order_name and reorder_name, fake_string and real_string.
-- Oneliners.antt (iboldb.c): the escaped records of InterBBS one-liners, written and parsed.
-- Ftn.antt (ftnconfig.c): FidoNet addresses, the links of an area and its primary feed.
-- Database.antt (buf.c, conf.c): CONF_FILE, the database of the conferences: get_conf_entry,
--   stringify_conf_struct, replace_conf, conf_store_entry, get_conf_struct, is_conf_creator and
--   last_text. Codec, Search, Store and Lookups hold the proofs.
-- Texts.antt (conf.c): first_text, the search for the oldest text by halves, and
--   count_existing_texts, over a test that says which text files exist.
-- Next.antt (text.c): next_text, which puts Reading, Database and Texts together: a round is one
--   turn of its loop, with the system calls of each round for themselves. Candidates, Lines and Rounds
--   are about one round, Spec says what a call promises, Liveness is about the whole loop.
-- Tosser.antt (ftntoss.c): build_import_plan, which gives the messages of a FidoNet area the numbers of
--   their texts. Spool is sort_msgitems_by_number; Plans says what a plan keeps, Order and Passes
--   why the later passes end, Complete which messages are planned, and Result has the theorems.
-- Records.antt: files of one line per entry, read entry by entry; `Format` says what a kind of entry
--   must have for the theorems on its file.
-- Active.antt (buf.c, user.c): ACTIVE_FILE, the users who are logged in: get_active_entry,
--   replace_active, set_avail, set_from, remove_active, check_active, user_is_active, user_is_avail.
--   Codec is about one line, Changes and Entries about the file and its list, Results the theorems.
-- Users.antt (user.c): set_sklaff_user_name, which puts a new name into USER_FILE, the file of all
--   users, with realname_valid and the line of stringify_user_struct. Lines is about one line, Scan
--   about the loop, Renaming about the whole function, Renamed about a lookup behind it. Lookups
--   (buf.c, user.c, lib/rtrim.c) is get_user_entry and the functions that look a user up.
-- Sklaffrc.antt (user.c): read_sklaffrc, a state machine over the bytes of a file, and the text that
--   write_sklaffrc builds. Steps goes through one entry, RoundTrip through the file.
-- Mail.antt (mailbody.c): the text of a mail message, from mailbody_render_utf8_dup down. Transfer has
--   the decoders of quoted-printable, base64 and ISO 8859-1 and decode_body, Urls clean_url, Headers
--   the header fields, Parts extract_best_part, Cleanup cleanup_text, and Render what puts them
--   together. Parts.Search and Parts.Printed are about messages as mail programs write them,
--   Parts.Chosen about the choice, Parts.Ends about the end of the loops.
-- Commands.antt (lib/wc.c, lib/up_string.c, lib/parse_string.c): what parse.c finds a command with: the
--   words of a string, and how many of them two strings share. Words goes through a string, SameName
--   is about strings that are the same. The fuel is the length of the string: each round takes a byte.
-- Flags.antt (flag.c): set_flags, check_flag and the text that save_flags builds, with the size of
--   its buffer. Turning is turn_flag, with the Swedish names that sklaff.h chooses.
--   OneCharset and Unique are about its branches.
-- Tests.antt: the theorems on concrete data, in a module for each group of parts.
--
-- A buffer is the list of its bytes without the final NUL, and a pointer into one is the rest of the
-- list from there on. Numbers of conferences and texts are natural numbers; the bounds of `int` and
-- `long` are hypotheses (`Fits`, LONG_MAX). A read through NULL, past the end of a buffer or of an
-- unset variable is a result of its own (`none`, `fault`, `broken`), apart from those the code gives.
-- Loops over a buffer run on its length as fuel, with a round to spare, since each round but the last
-- takes a byte of it at least; clear_comment runs on the length of its stack, first_text on the number
-- of the last text, and next_text on a fuel of its caller's, of which last + 1 is enough. The later
-- passes of build_import_plan run on the number of the messages, with one to spare, and the loop of
-- set_sklaff_user_name on the length of the file. extract_best_part runs on the length of the message,
-- both for its loop and for how deep parts lie in parts; a part is shorter than what it lies in.
--
-- That malloc fails is modelled in Stacks only. The sizes of fixed buffers are modelled where the code
-- tests or uses them (Oneliners, Ftn, Flags, set_from, set_sklaff_user_name, replace_conf) or allocates
-- by them (Charset, next_text, replace_confs and replace_conf), and left out elsewhere: replace_confs
-- also prints a line into a HUGE_LINE of 32768 bytes, which is taken to be large enough, and the strings
-- of an entry of ACTIVE_FILE are copied into fixed fields. That text + 1 overflows for a text of
-- LONG_MAX in mark_as_read is left out too, as are the file system itself, the sessions of
-- other users between two calls, and terminal input and output. Lynx, which renders HTML for
-- mailbody.c in a process of its own, is a parameter. What else is done with users, text headers,
-- messages, commands, mail, news and FidoNet traffic is not modelled.
pub mod Base
pub mod Libc
pub mod Stacks
pub mod Intervals
pub mod Confs
pub mod RawIo
pub mod Reading
pub mod Access
pub mod Charset
pub mod Names
pub mod Oneliners
pub mod Ftn
pub mod Database
pub mod Texts
pub mod Next
pub mod Tosser
pub mod Records
pub mod Active
pub mod Users
pub mod Sklaffrc
pub mod Mail
pub mod Commands
pub mod Flags
pub mod Tests
