-- ===== src/PacketCache.antt =====
-- `PacketCache` of pdns/pdns/packetcache.hh and pdns/pdns/packetcache.cc, the cache of the
-- authoritative server for answers and for what its backends say. The container is its sequence, the
-- entry to be deleted first in front. The clock is an argument, and so is whether a lock that is only
-- tried was got.
pub mod Entries
pub mod Cleanup
pub mod Replies
pub mod Order
pub mod Purge
use powerdns_improved_lua.Prelude.{
  ℕ, zero, suc, ◌+◌, ◌-◌, ◌*◌, ◌/◌, ◌%◌, ◌^◌, Bool, true, false, not, ◌&&◌, ◌||◌, List, [], ◌∷◌,
  ◌++◌, length, reverse, drop, take, ltb, leb, ◌==◌, if◌then◌else◌, Option, none, some, get_or,
}
use powerdns_improved_lua.Prelude.Int.{ℤ, pos, negsuc, pos_part, neg_part, ltb_ℤ}
use powerdns_improved_lua.Name.{Bytes, pdns_iequals, dns_tolower, char_lt}

-- The members of an entry that its composite key is made of. A kind is PACKETCACHE or QUERYCACHE.
pub record Key : Type 0 where
  pub qname : Bytes
  pub qtype : ℕ
  pub ctype : ℕ
  pub zone_id : ℤ
  pub merits_recursion : Bool

abbrev pub packetcache : ℕ
packetcache = 0

abbrev pub querycache : ℕ
querycache = 1

pub record CacheEntry : Type 0 where
  pub key : Key
  pub ttd : ℕ
  pub value : Bytes

-- The settings: "cache-ttl", "recursive-cache-ttl", "recursor" and "max-cache-entries".
pub record Settings : Type 0 where
  pub cache_ttl : ℤ
  pub recursive_cache_ttl : ℤ
  pub recursor : Bool
  pub max_cache_entries : ℕ

pub record PacketCache : Type 0 where
  pub entries : List CacheEntry
  pub ops : ℕ
  pub ttl : ℤ
  pub recursivettl : ℤ
  pub do_recursion : Bool
  pub statnumhit : ℕ
  pub statnummiss : ℕ
  pub statnumentries : ℕ

unfoldable pub new_cache : PacketCache
new_cache = record {
  entries = [];
  ops = 0;
  ttl = negsuc 0;
  recursivettl = negsuc 0;
  do_recursion = false;
  statnumhit = 0;
  statnummiss = 0;
  statnumentries = 0;
}

infix 50 ◌==ℤ◌
abbrev pub ◌==ℤ◌ : ℤ → ℤ → Bool
a ==ℤ b = pos_part a == pos_part b && neg_part a == neg_part b

abbrev pub same_bool : Bool → Bool → Bool
same_bool true b = b
same_bool false b = not b

-- Two names are equal to the key's comparison where neither is below the other.
unfoldable pub same_key : Key → Key → Bool
same_key k l =
    (pdns_iequals k.qname l.qname && k.qtype == l.qtype)
    && (k.ctype == l.ctype
        && (k.zone_id ==ℤ l.zone_id && same_bool k.merits_recursion l.merits_recursion))

unfoldable pub find : Key → List CacheEntry → Option CacheEntry
find k [] = none
find k (e ∷ entries) = let rest = find k entries in if same_key e.key k then some e else rest

-- An insertion, at the back of the sequence, or a replacement where the entry is.
unfoldable pub put : CacheEntry → List CacheEntry → List CacheEntry
put new [] = new ∷ []
put new (e ∷ entries) =
    let rest = put new entries in if same_key e.key new.key then new ∷ entries else e ∷ rest

-- The loop of `cleanup`: with `looked_at` and `erased` so far.
unfoldable pub clean_loop : ℕ → ℕ → ℕ → ℕ → ℕ → List CacheEntry → List CacheEntry
clean_loop now to_trim look_at looked_at erased [] = []
clean_loop now to_trim look_at looked_at erased (e ∷ entries) =
    let expired = ltb e.ttd now in
    let erased' = if expired then erased + 1 else erased in
    let further = clean_loop now to_trim look_at (looked_at + 1) erased' entries in
    let stop = (not (to_trim == 0) && ltb to_trim erased') || ltb look_at looked_at in
    let left = if stop then entries else further in if expired then left else e ∷ left

unfoldable pub cleanup : Settings → ℕ → PacketCache → PacketCache
cleanup s now c =
    let cache_size = length c.entries % 2 ^ 32 in
    let to_trim =
      if not (s.max_cache_entries == 0) && ltb s.max_cache_entries cache_size
      then cache_size - s.max_cache_entries
      else 0 in
    let look_at = if not (to_trim == 0) then 5 * to_trim % 2 ^ 32 else cache_size / 10 in
    let left = clean_loop now to_trim look_at 0 0 c.entries in
    record c { entries = left; statnumentries = length left % 2 ^ 32 }

unfoldable pub get_ttls : Settings → PacketCache → PacketCache
get_ttls s c = record c {
  ttl = s.cache_ttl;
  recursivettl = s.recursive_cache_ttl;
  do_recursion = s.recursor;
}

unfoldable pub need_ttls : Settings → PacketCache → PacketCache
need_ttls s c = if ltb_ℤ c.ttl (pos 0) then get_ttls s c else c

-- `if(!((d_ops++) % 300000)) cleanup();`.
unfoldable pub count_op : Settings → ℕ → PacketCache → PacketCache
count_op s now c =
    let c' : PacketCache = record c { ops = (c.ops + 1) % 2 ^ 32 } in
    if c.ops % 300000 == 0 then cleanup s now c' else c'

unfoldable pub get_entry_locked : ℕ → Key → PacketCache → Option Bytes
get_entry_locked now k c = elim (find k c.entries) [
  | none ↦ none
  | some e ↦ if ltb now e.ttd then some e.value else none
]

unfoldable pub get_entry : Settings → ℕ → Bool → Key → PacketCache → Option Bytes × PacketCache
get_entry s now got_it k c =
    let c' = count_op s now (need_ttls s c) in
    if got_it then (get_entry_locked now k c', c') else (none, c')

-- The second `insert`, which makes the entry: its `zoneID` goes nowhere, and the entry has the -1 of
-- its constructor.
unfoldable pub insert_entry :
    Settings → ℕ → Bool → Bytes → ℕ → ℕ → Bytes → ℕ → ℤ → Bool → PacketCache → PacketCache
insert_entry s now got_it qname qtype cet value ttl zone_id merits_recursion c =
    let c' = count_op s now c in
    let key : Key = record {
      qname = qname;
      qtype = qtype;
      ctype = cet;
      zone_id = negsuc 0;
      merits_recursion = merits_recursion;
    } in
    let val : CacheEntry = record { key = key; ttd = now + ttl; value = value } in
    if ttl == 0 then c' else if got_it then record c' { entries = put val c'.entries } else c'

-- What the cache reads of a question.
pub record Question : Type 0 where
  pub rd : Bool
  pub qdcount : ℕ
  pub qdomain : Bytes
  pub qtype : ℕ
  pub qclass : ℕ

-- An int as an unsigned int.
unfoldable pub to_unsigned : ℤ → ℕ
to_unsigned z = (pos_part z + 2 ^ 32 - neg_part z % 2 ^ 32) % 2 ^ 32

-- The first `insert`, of a reply.
unfoldable pub insert : Settings → ℕ → Bool → Question → Bytes → PacketCache → PacketCache
insert s now got_it q reply c =
    let c' = need_ttls s c in
    let merits = c'.do_recursion && q.rd in
    let inserted =
      insert_entry s now got_it q.qdomain q.qtype packetcache reply
        (to_unsigned (if merits then c'.recursivettl else c'.ttl)) (negsuc 0) merits c' in
    if not (q.qdcount == 1) then c' else if not (q.qclass == 1) then c' else inserted

abbrev pub hit : PacketCache → PacketCache
hit c = record c { statnumhit = (c.statnumhit + 1) % 2 ^ 32 }

abbrev pub miss : PacketCache → PacketCache
miss c = record c { statnummiss = (c.statnummiss + 1) % 2 ^ 32 }

-- `get`: the reply, before the spelling of the question is written into it. A value below 12 bytes
-- is no packet.
unfoldable pub get : Settings → ℕ → Bool → Question → PacketCache → Option Bytes × PacketCache
get s now got_it p c =
    let c' = count_op s now (need_ttls s c) in
    let merits = c'.do_recursion && p.rd in
    let key : Key = record {
      qname = p.qdomain;
      qtype = p.qtype;
      ctype = packetcache;
      zone_id = negsuc 0;
      merits_recursion = merits;
    } in
    let looked_up : Option Bytes × PacketCache = elim (get_entry_locked now key c') [
      | none ↦ (none, miss c')
      | some value ↦ if ltb (length value) 12 then (none, hit c') else (some value, hit c')
    ] in
    if (if merits then c'.recursivettl else c'.ttl) ==ℤ pos 0
    then (none, miss c')
    else if not (p.qdcount == 1)
    then (none, c')
    else if not got_it
    then (none, c')
    else looked_up

-- CIBackwardsStringCompare, on the names from their ends: where one is over, a 0 is compared.
unfoldable pub backwards : Bytes → Bytes → Bool
backwards [] [] = false
backwards [] (y ∷ ys) = char_lt 0 y
backwards (x ∷ xs) [] = char_lt x 0
backwards (x ∷ xs) (y ∷ ys) =
    let rest = backwards xs ys in
    if dns_tolower x == dns_tolower y then rest else char_lt (dns_tolower x) (dns_tolower y)

unfoldable pub name_lt : Bytes → Bytes → Bool
name_lt a b = backwards (reverse a) (reverse b)

-- The ordered index, as far as the names go.
unfoldable pub place : CacheEntry → List CacheEntry → List CacheEntry
place e [] = e ∷ []
place e (x ∷ xs) =
    let rest = place e xs in if name_lt x.key.qname e.key.qname then x ∷ rest else e ∷ x ∷ xs

unfoldable pub ordered : List CacheEntry → List CacheEntry
ordered [] = []
ordered (e ∷ entries) = place e (ordered entries)

-- `iends_with` is Boost's.
unfoldable pub pertains : (Bytes → Bytes → Bool) → Bytes → CacheEntry → Bool
pertains iends_with suffix e =
    pdns_iequals e.key.qname suffix || iends_with e.key.qname (b'.' ∷ suffix)

-- From `lower_bound` on, the loop up to the first entry that does not match.
unfoldable pub skip_below : Bytes → List CacheEntry → List CacheEntry
skip_below suffix [] = []
skip_below suffix (e ∷ entries) =
    let rest = skip_below suffix entries in if name_lt e.key.qname suffix then rest else e ∷ entries

unfoldable pub up_to_stop : (Bytes → Bytes → Bool) → Bytes → List CacheEntry → List CacheEntry
up_to_stop iends_with suffix [] = []
up_to_stop iends_with suffix (e ∷ entries) =
    let rest = up_to_stop iends_with suffix entries in
    if pertains iends_with suffix e then e ∷ rest else []

unfoldable pub doomed : (Bytes → Bytes → Bool) → Bytes → List CacheEntry → List CacheEntry
doomed iends_with suffix entries =
    up_to_stop iends_with suffix (skip_below suffix (ordered entries))

unfoldable pub is_among : CacheEntry → List CacheEntry → Bool
is_among e [] = false
is_among e (x ∷ xs) = same_key x.key e.key || is_among e xs

unfoldable pub erase_all : List CacheEntry → List CacheEntry → List CacheEntry
erase_all gone [] = []
erase_all gone (e ∷ entries) =
    let rest = erase_all gone entries in if is_among e gone then rest else e ∷ rest

unfoldable pub erase_name : Bytes → List CacheEntry → List CacheEntry
erase_name name [] = []
erase_name name (e ∷ entries) =
    let rest = erase_name name entries in if pdns_iequals e.key.qname name then rest else e ∷ rest

unfoldable pub last_is_dollar : Bytes → Bool
last_is_dollar s = leb 1 (length s) && get_or s (length s - 1) 0 == b'$'

-- One match of `purge`, with the count so far. A name sets the count to that of its entries.
unfoldable pub purge_match :
    (Bytes → Bytes → Bool) → Bytes → ℕ × List CacheEntry → ℕ × List CacheEntry
purge_match iends_with match (count, entries) =
    let suffix = take (length match - 1) match in
    let gone = doomed iends_with suffix entries in
    if last_is_dollar match
    then (count + length gone, erase_all gone entries)
    else (length entries - length (erase_name match entries), erase_name match entries)

unfoldable pub purge_loop :
    (Bytes → Bytes → Bool) → List Bytes → ℕ × List CacheEntry → ℕ × List CacheEntry
purge_loop iends_with [] state = state
purge_loop iends_with (match ∷ matches) state =
    purge_loop iends_with matches (purge_match iends_with match state)

-- `purge`; the first of the matches is the name of the command.
unfoldable pub purge : (Bytes → Bytes → Bool) → List Bytes → PacketCache → ℕ × PacketCache
purge iends_with [] c = (length c.entries, record c { entries = []; statnumentries = 0 })
purge iends_with (command ∷ matches) c =
    let (count, left) = purge_loop iends_with matches (0, c.entries) in
    (count, record c { entries = left; statnumentries = length left % 2 ^ 32 })
