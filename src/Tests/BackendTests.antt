-- ===== src/Tests/BackendTests.antt =====
-- The packet cache, the backends behind it and the walk to a zone: runs and instances.
use powerdns_improved_lua.Prelude.{
  ◌+◌, ◌≡◌, refl, true, false, List, [], ◌∷◌, ◌++◌, arith, none, some, if◌then◌else◌, ltb,
}
use powerdns_improved_lua.Prelude.Int.{pos}
use powerdns_improved_lua.Name.{Bytes, pdns_iequals, dns_tolower, char_lt}
use powerdns_improved_lua.PacketCache.{
  PacketCache, Settings, Question, CacheEntry, Key, find, put, insert, insert_entry, count_op, get,
  get_entry_locked, same_key, purge, purge_loop, purge_match, last_is_dollar, doomed, ordered,
  place, name_lt, backwards, skip_below, up_to_stop, pertains, is_among, erase_all, erase_name,
  querycache, packetcache,
}
use powerdns_improved_lua.PacketCache.Entries.{made_key, get_entry_locked-insert_entry}
use powerdns_improved_lua.PacketCache.Replies.{get-insert}
use powerdns_improved_lua.PacketCache.Purge.{find-purge, ends_in, name_matches}

abbrev settings : Settings
settings = record {
  cache_ttl = pos 20;
  recursive_cache_ttl = pos 10;
  recursor = false;
  max_cache_entries = 0;
}

-- A cache with its settings.
abbrev cache : PacketCache
cache = record {
  entries = [];
  ops = 1;
  ttl = pos 20;
  recursivettl = pos 10;
  do_recursion = false;
  statnumhit = 0;
  statnummiss = 0;
  statnumentries = 0;
}

-- "NL" and "nl".
abbrev upper : Bytes
upper = b'N' ∷ b'L' ∷ []

abbrev lower : Bytes
lower = b'n' ∷ b'l' ∷ []

abbrev question : Question
question = record { rd = false; qdcount = 1; qdomain = upper; qtype = 1; qclass = 1 }

abbrev question' : Question
question' = record { rd = false; qdcount = 1; qdomain = lower; qtype = 1; qclass = 1 }

abbrev reply : Bytes
reply = 0 ∷ 1 ∷ 128 ∷ 0 ∷ 0 ∷ 1 ∷ 0 ∷ 0 ∷ 0 ∷ 0 ∷ 0 ∷ 0 ∷ 7 ∷ []

get-insert_example :
    (get settings 110 true question' (insert settings 100 true question reply cache)).0 ≡ some reply
get-insert_example =
    get-insert settings 100 110 20 question question' reply cache refl refl (omega arith)
      (omega arith) (omega arith) refl refl refl (unfold pdns_iequals dns_tolower in refl) refl refl
      (omega arith)

-- A question of the zone 5 does not find what was inserted for the zone 5.
zone_key : Key
zone_key = record {
  qname = lower;
  qtype = 1;
  ctype = querycache;
  zone_id = pos 5;
  merits_recursion = false;
}

get_entry_locked-insert_entry_example :
    get_entry_locked 101 zone_key
      (insert_entry settings 100 true lower 1 querycache reply 20 (pos 5) false cache)
    ≡ (if same_key (made_key lower 1 querycache false) zone_key
        then if ltb 101 (100 + 20) then some reply else none
        else get_entry_locked 101 zone_key (count_op settings 100 cache))
get_entry_locked-insert_entry_example =
    get_entry_locked-insert_entry settings 100 101 lower 1 querycache reply 20 (pos 5) false cache
      zone_key (omega arith)

zone_run :
    get_entry_locked 101 zone_key
      (insert_entry settings 100 true lower 1 querycache reply 20 (pos 5) false cache)
    ≡ none
unfolding get_entry_locked insert_entry count_op zone_key find put same_key pdns_iequals dns_tolower
zone_run = refl

-- "b.nl", "a-b.nl" and "c.b.nl".
abbrev b_nl : Bytes
b_nl = b'b' ∷ b'.' ∷ lower

abbrev dash_nl : Bytes
dash_nl = b'a' ∷ b'-' ∷ b_nl

abbrev c_nl : Bytes
c_nl = b'c' ∷ b'.' ∷ b_nl

abbrev key_named : Bytes → Key
key_named name = made_key name 1 packetcache false

abbrev entry : Bytes → CacheEntry
entry name = record { key = key_named name; ttd = 500; value = reply }

abbrev filled : PacketCache
filled = record cache { entries = entry b_nl ∷ entry dash_nl ∷ entry c_nl ∷ [] }

-- The command, the suffix "b.nl$" and the name "NL".
abbrev matches : List Bytes
matches = (b'P' ∷ []) ∷ (b_nl ++ (b'$' ∷ [])) ∷ upper ∷ []

abbrev drop_one : List Bytes → List Bytes
drop_one [] = []
drop_one (m ∷ ms) = ms

-- The entry for "c.b.nl" stays, behind that for "a-b.nl".
purge_run : find (key_named c_nl) (purge ends_in matches filled).1.entries ≡ some (entry c_nl)
unfolding find purge purge_loop purge_match last_is_dollar doomed ordered place name_lt backwards
    char_lt dns_tolower skip_below up_to_stop pertains ends_in pdns_iequals is_among erase_all
    erase_name same_key
purge_run = refl

find-purge_example : find (key_named dash_nl) (purge ends_in matches filled).1.entries ≡ (
    if name_matches (drop_one matches) dash_nl
    then none
    else find (key_named dash_nl) filled.entries)
find-purge_example =
    find-purge ends_in (λ a b. refl) (key_named dash_nl) (b'P' ∷ [])
      ((b_nl ++ (b'$' ∷ [])) ∷ upper ∷ []) filled
      (unfold last_is_dollar ends_in pdns_iequals dns_tolower in refl)
