-- ===== src/Lib.antt =====
-- PowerDNS: the names, the packets and the small state machines behind the authoritative server and
-- the recursor.
--
-- Parts and files. Paths are from the repository's root.
--
-- - Prelude, Prelude/*: library names passed on, Boolean tests, lists measured by the native numbers,
--   integers.
-- - Name, Name/*: comparison of names without regard to case and the suffix tests of
--   pdns/pdns/misc.hh and pdns/pdns/misc.cc (dns_tolower, toLower, pdns_iequals,
--   pdns_ilexicographical_compare, ciEqual, endsOn, dottedEndsOn).
-- - Text, Text/*: the text of names in the same files (chopOff, chopOffDotted, stripDomainSuffix,
--   stripDot, isCanonical, toCanonic, makeRelative, dotConcat, splitField, stringtok, labelReverse,
--   unquotify, stripLine, urlEncode, cleanSlashes, toLowerCanonic).
-- - Wire: the results that packet code has. Wire/Reader: PacketReader of pdns/pdns/dnsparser.cc.
--   Wire/Parts: labeltokUnescape and the loop of xfrLabel of pdns/pdns/dnswriter.cc. Wire/Writer:
--   DNSPacketWriter. Wire/Numbers: the integers on both sides. Wire/Mangler: DNSPacketMangler and
--   ageDNSPacket of pdns/pdns/dnsparser.cc. Wire/Encode: EncodeDNSLabel of the same file.
-- - Communicator: NotificationQueue of pdns/pdns/communicator.hh.
-- - Throttle: the template Throttle of pdns/pdns/syncres.hh, used by the recursor for servers and
--   for questions.
-- - Cleaner: pruneCollection of pdns/pdns/cachecleaner.hh.
-- - RecursorCache: MemRecursorCache of pdns/pdns/recursor_cache.hh and pdns/pdns/recursor_cache.cc,
--   with moveCacheItemToFrontOrBack of cachecleaner.hh. RecursorCache/Keys, Moves, Range: its
--   container; Get, Replace, Single, Steps: its calls, one by one and in sequence.
-- - Base32: toBase32Hex and fromBase32Hex of pdns/pdns/base32.cc.
-- - Base64: B64Decode and Base64Encode of pdns/pdns/base64.cc.
-- - Nsec: NSEC and NSEC3 records of pdns/pdns/nsecrecords.cc, to and from a packet. Nsec/Bits and
--   Nsec/Reading: the two directions of the type bitmap. Nsec/Parts, Nsec/Packet: the whole record.
-- - RecordText/Reader, RecordText/Writer: RecordTextReader and RecordTextWriter of
--   pdns/pdns/rcpgenerator.cc. RecordText/Fields, Numbers, Addresses, Blobs, Texts,
--   Total: their fields and loops.
-- - PacketCache: PacketCache of pdns/pdns/packetcache.hh and pdns/pdns/packetcache.cc, the cache of the
--   authoritative server for replies and for what its backends say. PacketCache/Entries, Cleanup,
--   Replies: what is found of what was put in; Order: the order of its names; Purge: purge.
-- - Backend: DNSResourceRecord and QType of pdns/pdns/dns.hh and pdns/pdns/qtype.cc, with the text of a
--   record in the query cache (Backend/Serialize). Backend/Soa: DNSBackend::getSOA of
--   pdns/pdns/dnsbackend.cc, fillSOAData and serializeSOAData of pdns/pdns/dnspacket.cc.
--   Backend/Ueber: UeberBackend of pdns/pdns/ueberbackend.cc, over the packet cache; Draining: all
--   answers to a question; Cached: answers without a backend.
-- - Handler: getAuth, getBestReferralNS and getBestWildcard of pdns/pdns/packethandler.cc.
-- - Tests: runs, and the theorems at concrete inputs.
--
-- The reader and the writer meet in the bytes of a packet; both stand on the text of names. The
-- servers keep a queue of notifications and, in the recursor, two throttles and the cache, which the
-- cleaner prunes. The handler of questions asks the backends through UeberBackend, which keeps their
-- answers as text in the packet cache, where the replies are kept too.
--
-- Choices. A string or a vector of bytes is a list of numbers. An operation that changes an object
-- takes the record of its fields and gives the new one; an exception is a value of Result. Positions
-- that the program holds in a uint16_t wrap at 2 ^ 16, and so do counters and the integers of a
-- packet; sizes of containers do not wrap. The clock and the random source are arguments.
--
-- A backend answers as a function of the type, the name and the zone. The test for a suffix that
-- purge takes from Boost is a parameter.
--
-- Fuel. The loops that walk up from a name have one more round than the name has bytes; each takes
-- one at least. The calls of get after a lookup have rounds for all answers and one more. The loop
-- of getLabelFromContent over labels has one more round than the packet has bytes; each label
-- takes at least one. Its recursion over pointers is bounded by the program, at eleven levels.
-- skipLabel too has one more round than the packet has bytes. stringtok has one more round than
-- the text has characters, and getText one more than the packet has bytes. B64Decode and
-- toBase32Hex have a round for each byte of their input, and xfrText of the text reader one for
-- each character of the text; each takes one at least.
--
-- The ordered index of the recursor's cache is a search for the key; its sequence is the list. What
-- DNSRR2String makes of a record stands for the record, so get answers the arguments that it gives to
-- String2DNSRR. The set that get fills is the list of its insertions.
--
-- The ordered index of the packet cache is a search for the key too, for names without a 0 byte, where
-- its order of names goes with the comparison without regard to case.
--
-- Not modelled. The recursor's packet cache, the resolver, the rest of the handling of questions,
-- the single backends, zone files, DNSSEC and the record types are parts of their own, and so are
-- times, type names and base32 in the text of records; sockets, threads, logs and tools are the
-- system's or stand outside of serving; PolarSSL, AES and MD5 are vendored.
pub mod Prelude
pub mod Name
pub mod Text
pub mod Wire
pub mod Communicator
pub mod Throttle
pub mod Cleaner
pub mod RecursorCache
pub mod Base32
pub mod Base64
pub mod Nsec
pub mod RecordText
pub mod PacketCache
pub mod Backend
pub mod Handler
pub mod Tests
