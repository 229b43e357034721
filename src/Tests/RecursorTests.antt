-- ===== src/Tests/RecursorTests.antt =====
-- The recursor's cache: runs and instances.
use powerdns_improved_lua.Prelude.{
  ℕ, ◌≡◌, ◌+◌, refl, inl, inr, true, false, ◌&&◌, ◌||◌, ◌==◌, if◌then◌else◌, [], ◌∷◌, length, none,
  some, arith,
}
use powerdns_improved_lua.Name.{Bytes, pdns_iequals, dns_tolower}
use powerdns_improved_lua.RecursorCache.{
  StoredRecord, CacheEntry, MemRecursorCache, new_cache, find, records_at, get, replace,
  do_wipe_cache, any_alive, any_equal, sort, has_key, equal_range, insert_type, bytes, size_records,
}
use powerdns_improved_lua.RecursorCache.Keys.{same_key}
use powerdns_improved_lua.RecursorCache.Range.{IsCached}
use powerdns_improved_lua.RecursorCache.Get.{fresh_answers, get-fresh_answers}
use powerdns_improved_lua.RecursorCache.Replace.{get-replace, replace-protected}
use powerdns_improved_lua.RecursorCache.Single.{is_none, single_records, records-replace_single}
use powerdns_improved_lua.RecursorCache.Steps.{
  Reaches, get_uncached-Reaches, IsValid, here, next, replaced, got, do_wipe_cache_lem,
  Reaches-IsValid,
}

abbrev nl : Bytes
nl = b'n' ∷ b'l' ∷ []

abbrev nl_upper : Bytes
nl_upper = b'N' ∷ b'L' ∷ []

abbrev ds : Bytes
ds = b'd' ∷ b's' ∷ []

abbrev first : StoredRecord
first = record { ttd = 2000000100; string = 1 ∷ [] }

abbrev second : StoredRecord
second = record { ttd = 2000000200; string = 2 ∷ [] }

abbrev late : StoredRecord
late = record { ttd = 2000000900; string = 3 ∷ [] }

-- An address with authority and an alias with authority, both alive at `start`.
abbrev start : ℕ
start = 2000000000

abbrev address : CacheEntry
address = record { qname = nl; qtype = 1; auth = true; records = first ∷ second ∷ [] }

abbrev alias : CacheEntry
alias = record { qname = ds; qtype = 5; auth = true; records = second ∷ [] }

abbrev stored : MemRecursorCache
stored = record {
  follow_rfc2181 = false;
  cache = address ∷ alias ∷ [];
  cachecache = 1 ∷ [];
  cachedqname = nl;
  cachecachevalid = true;
}

stored-IsCached : IsCached stored
unfolding equal_range insert_type pdns_iequals dns_tolower
stored-IsCached = inr refl

found_run : find nl_upper 1 stored.cache ≡ some address
unfolding find has_key pdns_iequals dns_tolower
found_run = refl

alive_run : any_alive start (first ∷ second ∷ []) ≡ true
unfolding any_alive
alive_run = refl

other_run : same_key nl 1 ds 5 ≡ false
unfolding pdns_iequals dns_tolower
other_run = refl

bytes_run : bytes stored.cache ≡ 19
unfolding bytes size_records
bytes_run = refl

-- A cache that a `replace` and a `get` have made of a new one: a range is kept.
abbrev filled : MemRecursorCache
filled = (get start nl 1 true (replace start nl 1 (first ∷ second ∷ []) true new_cache)).2

filled-Reaches : Reaches new_cache filled
filled-Reaches =
    next (next here (replaced new_cache start nl 1 (first ∷ second ∷ []) true))
      (got (replace start nl 1 (first ∷ second ∷ []) true new_cache) start nl 1 true)

get_uncached-Reaches_example :
    ((get start nl_upper 1 true filled).0
      ≡ (get start nl_upper 1 true (record filled { cachecachevalid = false })).0)
    × ((get start nl_upper 1 true filled).1
        ≡ (get start nl_upper 1 true (record filled { cachecachevalid = false })).1)
    × ((get start nl_upper 1 true filled).2.cache
        ≡ (get start nl_upper 1 true (record filled { cachecachevalid = false })).2.cache)
get_uncached-Reaches_example = get_uncached-Reaches filled start nl_upper 1 true filled-Reaches

get-fresh_answers_example :
    (get (start + 150) nl_upper 1 true stored).1
    ≡ fresh_answers (start + 150) 1 (records_at nl_upper 1 stored.cache)
get-fresh_answers_example =
    get-fresh_answers (start + 150) nl_upper 1 true stored stored-IsCached (omega arith)
      (omega arith)

get-replace_example :
    (get (start + 150) nl 1 true (replace start nl 1 (late ∷ first ∷ []) true stored)).1
    ≡ fresh_answers (start + 150) 1 (sort (late ∷ first ∷ []))
get-replace_example =
    get-replace start (start + 150) nl 1 true (late ∷ first ∷ []) stored (omega arith) (omega arith)
      (omega arith)

replace-protected_example :
    (replace start nl_upper 1 (late ∷ []) false stored).cache ≡ address ∷ alias ∷ []
replace-protected_example =
    replace-protected start nl_upper 1 (late ∷ []) stored address found_run refl alive_run
      (omega arith) (omega arith)

-- Two CNAMEs without authority for a name that has one: both are stored.
records-replace_single_example :
    (let stored_now = records_at ds 5 (replace start ds 5 (late ∷ first ∷ []) false stored).cache in
      (stored_now
        ≡ single_records false start 5 (late ∷ first ∷ []) false (is_none (find ds 5 stored.cache)))
      × (any_equal first.string stored_now ≡ any_equal first.string (late ∷ first ∷ [])))
records-replace_single_example =
    records-replace_single start ds 5 (late ∷ first ∷ []) false stored first.string (inl refl)

do_wipe_cache_lem_example :
    (find nl 1 (do_wipe_cache nl_upper 0xffff stored).1.cache ≡ (
      if pdns_iequals nl_upper nl && (0xffff == 0xffff || 1 == 0xffff)
      then none
      else find nl 1 stored.cache))
    × ((do_wipe_cache nl_upper 0xffff stored).0
          + length (do_wipe_cache nl_upper 0xffff stored).1.cache
        ≡ 2)
do_wipe_cache_lem_example = do_wipe_cache_lem nl_upper 0xffff stored nl 1

Reaches-IsValid_example : IsValid filled
Reaches-IsValid_example = Reaches-IsValid filled filled-Reaches
