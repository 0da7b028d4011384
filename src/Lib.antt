-- ===== src/Lib.antt =====
-- The OpenPak client library (client/openpak): the account, friends, presence, catalogue and network
-- checks that an emulator links to.
--
-- Parts, and how they interact. The host names itself, its profile and its directories (platform.cpp).
-- The account file says who is signed in on the active profile (account.cpp); what a client derives
-- from it is dropped when its generation moves. The running game declares a presence
-- (presence_state.cpp), which is published beside the status that the person chose
-- (friends_cache.cpp); the friend service's structs carry friends, names and pairs into the game
-- (friend_structs.cpp). Friend requests that were sent are remembered in a file
-- (outgoing_requests.cpp). The site's catalogue says which titles are supported (compatibility.cpp),
-- and the NAT test asks two servers how the router maps and filters (nat_check.cpp). The console's
-- names are redirected as the network profile says (network_profile_fetch.cpp), within the signed
-- ceiling (network_ceiling.cpp). A save of the cloud is put in the place of the local one before a
-- launch (save_sync.cpp, restore_swap.h); it travels as a zip archive (zip_store.cpp). A connection on
-- which the server says what has changed keeps the lists fresh (push.cpp). A crash leaves a report
-- that is offered at the next launch (crash_reports.cpp). What the news service has for a title is
-- kept for when it cannot be reached (bcat.cpp).
--
-- Files. Shared holds what all parts use: tests, lists, byte texts, association lists for `std::map`,
-- `ℤ`, decimal text as `std::to_string`, `std::stoull` and `std::stoll` have it, and a disk whose
-- writes and renames can fail. Platform, Account, Outgoing, Friends, Structs, Presence, Compatibility,
-- Nat, Network, Saves, Push, Zip, Crash and Bcat model the files of client/openpak that their first
-- lines name; below each stand its theorems, and in its Examples the witnesses and tests. A function
-- keeps its name in snake case (`PruneAccepted` is `prune_accepted`), and a static of the file is a
-- field of the part's `Store`, `State`, `Cache`, `Client` or `World`. Below Network, Ceiling decides
-- which ceiling is in use, Profile cuts a profile to it and answers for a host, and Watch says when to
-- announce; below Saves, Folders has the calls on folders that can fail; below Push, Flat reads the
-- server's buffers, Frames cuts the stream and Queue is about the refreshes; below Zip, Words and
-- Headers lay the archive's structs out in bytes and Paths says where a name lands; below Crash, Texts
-- has the texts and their buffers and Signals the report that a signal handler writes. A call that
-- holds the file's mutex throughout is one function of that state.
--
-- Bounds and fuel. A byte is a number, and a text a list of bytes; `u64` counters wrap by `% 2 ^
-- 64` where they are counted up. Decimal text has at most the 20 digits of a `u64`. The UTF-8
-- loops take the length of the text for fuel, since each round reads at least one byte. An
-- exchange of the NAT test has the source's three rounds. A ceiling's version is below 2 ^ 63, as
-- the source's `long long` is. The calls on folders that a swap makes take their failures from a
-- list; which folders cannot be read, and for which paths `exists` throws, is told by the path, as
-- is which files of the crash reports' directory are not removed. Draining the frames of a buffer
-- takes its length, since a frame has five bytes at least. The words of an archive are cut to 16
-- or 32 bits where the source casts them; a read that is not inside the bytes is an outcome of its
-- own.
--
-- Not modelled. The clock, the profile that the host answers, the datagrams that arrive, the JSON
-- parser, sockets, the interface list, Ed25519, SHA-256 and `inet_pton` are arguments. HTTP, TLS,
-- JSON, zlib and libarchive are third-party code. The session, the BAAS requests and the website's
-- requests are left out. The Qt windows (qt) are user interface.
pub mod Shared
pub mod Platform
pub mod Account
pub mod Outgoing
pub mod Friends
pub mod Structs
pub mod Presence
pub mod Saves
pub mod Push
pub mod Compatibility
pub mod Nat
pub mod Network
pub mod Zip
pub mod Crash
pub mod Bcat
