-- ===== src/PacketCache/Entries.antt =====
-- What `PacketCache` of pdns/pdns/packetcache.cc finds of what was put into it.
use powerdns_improved_lua.Prelude.{
  ℕ, ◌+◌, ◌≡◌, ◌≢◌, Bool, true, List, [], ◌∷◌, ltb, if◌then◌else◌, none, some, arith,
}
use powerdns_improved_lua.Prelude.Int.{ℤ, negsuc}
use powerdns_improved_lua.Name.{Bytes}
use powerdns_improved_lua.RecursorCache.Keys.{iequals_refl, iequals_cong, iequals_sym}
use powerdns_improved_lua.PacketCache.{
  Key, CacheEntry, Settings, PacketCache, same_key, find, put, count_op, get_entry_locked,
  insert_entry,
}

pub same_key_cong : (k l m : Key) → same_key k l ≡ true → same_key k m ≡ same_key l m
unfolding same_key
same_key_cong k l m h = ground (arith, iequals_cong k.qname l.qname m.qname)

pub same_key_refl : (k : Key) → same_key k k ≡ true
unfolding same_key
same_key_refl k = ground (arith, iequals_refl k.qname)

pub same_key_sym : (k l : Key) → same_key k l ≡ same_key l k
unfolding same_key
same_key_sym k l = ground (arith, iequals_sym k.qname l.qname)

pub find-put :
    (k : Key) (new : CacheEntry) (entries : List CacheEntry)
    → find k (put new entries) ≡ (if same_key new.key k then some new else find k entries)
unfolding find put
find-put k new [] = ground arith
find-put k new (e ∷ entries) = ground (
  arith,
  find-put k new entries,
  same_key_cong e.key new.key k,
  same_key_cong e.key k new.key,
  same_key_sym k new.key,
)

-- The key that an insertion makes.
abbrev pub made_key : Bytes → ℕ → ℕ → Bool → Key
made_key qname qtype cet merits = record {
  qname = qname;
  qtype = qtype;
  ctype = cet;
  zone_id = negsuc 0;
  merits_recursion = merits;
}

-- After an insertion with a time to live that is not 0, and the lock, a lookup with the same name,
-- without regard to case, type, kind and recursion, and with the zone -1, gives the value until the
-- time is up; any other lookup, one with the zone that the insertion was for too, gives what it
-- gave before.
pub get_entry_locked-insert_entry :
    (s : Settings) (now later : ℕ) (qname : Bytes) (qtype cet : ℕ) (value : Bytes) (ttl : ℕ)
    (zone_id : ℤ) (merits : Bool) (c : PacketCache) (k : Key)
    → ttl ≢ 0
    → get_entry_locked later k (insert_entry s now true qname qtype cet value ttl zone_id merits c)
      ≡ (if same_key (made_key qname qtype cet merits) k
          then if ltb later (now + ttl) then some value else none
          else get_entry_locked later k (count_op s now c))
unfolding insert_entry get_entry_locked
get_entry_locked-insert_entry s now later qname qtype cet value ttl zone_id merits c k h =
    let val : CacheEntry = record {
      key = made_key qname qtype cet merits;
      ttd = now + ttl;
      value = value;
    } in
    ground (arith, find-put k val (count_op s now c).entries)
