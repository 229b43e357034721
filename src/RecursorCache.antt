-- ===== src/RecursorCache.antt =====
-- `MemRecursorCache` of pdns/pdns/recursor_cache.hh and pdns/pdns/recursor_cache.cc. The container is
-- its sequence, the entry to be deleted first in front; its ordered index finds the entries of a
-- name, without regard to case, in the order of their types. A record is kept as the string that
-- DNSRR2String makes of it, and an answer is what String2DNSRR is called with.
pub mod Keys
pub mod Moves
pub mod Range
pub mod Get
pub mod Replace
pub mod Single
pub mod Steps
use powerdns_improved_lua.Prelude.{
  ℕ, zero, suc, ◌+◌, ◌-◌, ◌%◌, ◌^◌, Bool, true, false, not, ◌&&◌, ◌||◌, List, [], ◌∷◌, ◌++◌, length,
  leb, ltb, ◌==◌, if◌then◌else◌, Option, none, some, min,
}
use powerdns_improved_lua.Prelude.Int.{ℤ, pos, negsuc, pos_part, neg_part, ltb_ℤ, to_int32}
use powerdns_improved_lua.Name.{Bytes, pdns_iequals, bytes_eq}
use powerdns_improved_lua.Cleaner.{prune_collection}

pub record StoredRecord : Type 0 where
  pub ttd : ℕ
  pub string : Bytes

pub record CacheEntry : Type 0 where
  pub qname : Bytes
  pub qtype : ℕ
  pub auth : Bool
  pub records : List StoredRecord

-- `cachecache` is the range of entries that the last `get` found for `cachedqname`, as their types.
pub record MemRecursorCache : Type 0 where
  pub follow_rfc2181 : Bool
  pub cache : List CacheEntry
  pub cachecache : List ℕ
  pub cachedqname : Bytes
  pub cachecachevalid : Bool

unfoldable pub new_cache : MemRecursorCache
new_cache = record {
  follow_rfc2181 = false;
  cache = [];
  cachecache = [];
  cachedqname = [];
  cachecachevalid = false;
}

-- `getTTD`; without records it is the largest uint32_t.
unfoldable pub earliest : List StoredRecord → ℕ
earliest [] = 2 ^ 32 - 1
earliest (r ∷ records) = min r.ttd (earliest records)

unfoldable pub get_ttd : CacheEntry → ℕ
get_ttd e =
    if length e.records == 1 then elim e.records [ [] ↦ 0 | r ∷ _ ↦ r.ttd ] else earliest e.records

-- The composite key.
unfoldable pub has_key : Bytes → ℕ → CacheEntry → Bool
has_key name qtype e = pdns_iequals e.qname name && e.qtype == qtype

unfoldable pub find : Bytes → ℕ → List CacheEntry → Option CacheEntry
find name qtype [] = none
find name qtype (e ∷ cache) =
    let rest = find name qtype cache in if has_key name qtype e then some e else rest

unfoldable pub insert_type : ℕ → List ℕ → List ℕ
insert_type t [] = t ∷ []
insert_type t (u ∷ types) =
    let rest = insert_type t types in if leb t u then t ∷ u ∷ types else u ∷ rest

-- `equal_range(tie(name))`.
unfoldable pub equal_range : Bytes → List CacheEntry → List ℕ
equal_range name [] = []
equal_range name (e ∷ cache) =
    let rest = equal_range name cache in
    if pdns_iequals e.qname name then insert_type e.qtype rest else rest

-- The entry is the first of the sequence with its key; taking it out and putting it in again.
unfoldable pub erase : Bytes → ℕ → List CacheEntry → List CacheEntry
erase name qtype [] = []
erase name qtype (e ∷ cache) =
    let rest = erase name qtype cache in if has_key name qtype e then cache else e ∷ rest

unfoldable pub store : CacheEntry → List CacheEntry → List CacheEntry
store new [] = []
store new (e ∷ cache) =
    let rest = store new cache in if has_key new.qname new.qtype e then new ∷ cache else e ∷ rest

unfoldable pub move_to : Bool → Bytes → ℕ → List CacheEntry → List CacheEntry
move_to front name qtype cache = elim (find name qtype cache) [
  | none ↦ cache
  | some e ↦ let others = erase name qtype cache in if front then e ∷ others else others ++ (e ∷ [])
]

-- What the set of answers holds: String2DNSRR of the question's name and these.
pub record Answer : Type 0 where
  pub qtype : ℕ
  pub string : Bytes
  pub ttd : ℕ

unfoldable pub is_fresh : ℕ → StoredRecord → Bool
is_fresh now r = ltb r.ttd 1000000000 || ltb (now % 2 ^ 32) r.ttd

-- The loop over the records of one entry: the last time, and the answers.
unfoldable pub collect : ℕ → ℕ → List StoredRecord → ℕ → List Answer → ℕ × List Answer
collect now qtype [] ttd res = (ttd, res)
collect now qtype (r ∷ records) ttd res =
    let fresh = is_fresh now r in
    let answer : Answer = record { qtype = qtype; string = r.string; ttd = r.ttd } in
    collect now qtype records (if fresh then r.ttd else ttd)
      (if fresh then res ++ (answer ∷ []) else res)

abbrev pub type_any : ℕ
type_any = 255

abbrev pub type_addr : ℕ
type_addr = 259

unfoldable pub wants : ℕ → ℕ → Bool
wants qt t = (t == qt || qt == type_any) || (qt == type_addr && (t == 1 || t == 28))

unfoldable pub records_at : Bytes → ℕ → List CacheEntry → List StoredRecord
records_at name t cache = elim (find name t cache) [ none ↦ [] | some e ↦ e.records ]

-- The loop over the range. `want` says that the caller gave a set; what the set would hold is kept in
-- any case.
unfoldable pub get_loop :
    ℕ
    → Bytes
    → ℕ
    → Bool
    → List ℕ
    → ℕ
    → List Answer
    → List CacheEntry
    → ℕ × List Answer × List CacheEntry
get_loop now name qt want [] ttd res cache = (ttd, res, cache)
get_loop now name qt want (t ∷ types) ttd res cache =
    let (ttd', res') = collect now t (records_at name t cache) ttd res in
    let cache' = if want then move_to (length res' == 0) name t cache else cache in
    let on_hit : ℕ × List Answer × List CacheEntry = elim (qt == type_any || qt == type_addr) [
      | true ↦ get_loop now name qt want types ttd' res' cache'
      | false ↦ (ttd', res', cache')
    ] in
    let on_miss = get_loop now name qt want types ttd res cache in
    if wants qt t then on_hit else on_miss

-- `get` behind its first test, with the range to use and the name that it is kept for.
unfoldable pub get_range :
    ℕ → Bytes → ℕ → Bool → List ℕ → Bytes → MemRecursorCache → ℤ × List Answer × MemRecursorCache
get_range now name qt want range cached c =
    let (ttd, res, cache') = get_loop now name qt want range 0 [] c.cache in
    let c' : MemRecursorCache = record c {
      cache = cache';
      cachecache = range;
      cachedqname = cached;
      cachecachevalid = true;
    } in
    if length range == 0
    then (negsuc 0, [], c')
    else (to_int32 (ttd + 2 ^ 32 - now % 2 ^ 32), (if want then res else []), c')

-- `get`: the seconds left, the answers where the caller gave a set for them, and the cache.
unfoldable pub get : ℕ → Bytes → ℕ → Bool → MemRecursorCache → ℤ × List Answer × MemRecursorCache
get now name qt want c =
    let hit = c.cachecachevalid && pdns_iequals c.cachedqname name in
    get_range now name qt want (if hit then c.cachecache else equal_range name c.cache)
      (if hit then c.cachedqname else name) c

unfoldable pub attempt_to_refresh_ns_ttl : ℕ → List StoredRecord → CacheEntry → Bool
attempt_to_refresh_ns_ttl qt content stored =
    if not stored.auth
    then false
    else if not (qt == 2)
    then false
    else if not (length content == length stored.records)
    then false
    else elim stored.records [
      | [] ↦ false
      | r ∷ _ ↦ elim content [ [] ↦ false | i ∷ _ ↦ not (ltb i.ttd r.ttd) ]
    ]

-- `operator<` of std::string.
unfoldable pub bytes_lt : Bytes → Bytes → Bool
bytes_lt a [] = false
bytes_lt [] (y ∷ b) = true
bytes_lt (x ∷ a) (y ∷ b) = let rest = bytes_lt a b in if x == y then rest else ltb x y

-- std::sort, of which the order of equal strings is left open.
unfoldable pub insert_record : StoredRecord → List StoredRecord → List StoredRecord
insert_record r [] = r ∷ []
insert_record r (s ∷ records) =
    let rest = insert_record r records in
    if bytes_lt s.string r.string then s ∷ rest else r ∷ s ∷ records

unfoldable pub sort : List StoredRecord → List StoredRecord
sort [] = []
sort (r ∷ records) = insert_record r (sort records)

unfoldable pub any_equal : Bytes → List StoredRecord → Bool
any_equal string [] = false
any_equal string (r ∷ records) = bytes_eq r.string string || any_equal string records

-- The new time of a record that is stored already; 2 is NS.
unfoldable pub new_ttd : Bool → ℕ → ℕ → Bool → ℕ → ℕ → ℕ
new_ttd follow now qt auth old new =
    if ((ltb (now % 2 ^ 32) old && ltb old new) && qt == 2) && auth
    then old
    else if ltb old new || (auth && follow)
    then new
    else old

unfoldable pub refresh : Bool → ℕ → ℕ → Bool → StoredRecord → List StoredRecord → List StoredRecord
refresh follow now qt auth new [] = []
refresh follow now qt auth new (r ∷ records) =
    let rest = refresh follow now qt auth new records in
    if bytes_eq r.string new.string
    then record r { ttd = new_ttd follow now qt auth r.ttd new.ttd } ∷ rest
    else r ∷ rest

-- The loop over the content.
unfoldable pub store_records :
    Bool → ℕ → ℕ → Bool → Bool → List StoredRecord → List StoredRecord → List StoredRecord
store_records follow now qt auth fresh [] records = records
store_records follow now qt auth fresh (new ∷ content) records =
    store_records follow now qt auth fresh content (
      if fresh
      then records ++ (new ∷ [])
      else if any_equal new.string records
      then refresh follow now qt auth new records
      else sort (records ++ (new ∷ [])))

unfoldable pub any_alive : ℕ → List StoredRecord → Bool
any_alive now [] = false
any_alive now (r ∷ records) = ltb now r.ttd || any_alive now records

-- What `replace` makes of the entry; `none` is the early return. 6 is SOA and 5 is CNAME.
unfoldable pub replace_entry :
    Bool → ℕ → ℕ → List StoredRecord → Bool → Bool → CacheEntry → Option CacheEntry
replace_entry follow now qt content auth is_new stored =
    let single = qt == 6 || qt == 5 in
    let ce : CacheEntry = record stored { records = if single then [] else stored.records } in
    let unauth = not auth && ce.auth in
    let ce' : CacheEntry = if unauth then record ce { auth = false } else ce in
    let nuke = auth && not (attempt_to_refresh_ns_ttl qt content ce') in
    let ce'' : CacheEntry = if nuke then record ce' { records = []; auth = true } else ce' in
    let fresh = is_new || nuke in
    let filled = store_records follow now qt auth fresh content ce''.records in
    let done = record ce'' { records = if fresh then sort filled else filled } in
    if unauth && any_alive now ce.records then none else some done

-- `replace`; `content` holds the new records, with their ttl for a time.
unfoldable pub replace :
    ℕ → Bytes → ℕ → List StoredRecord → Bool → MemRecursorCache → MemRecursorCache
replace now name qt content auth c =
    let (is_new, stored, cache) : Bool × CacheEntry × List CacheEntry =
      elim (find name qt c.cache) [
        | some e ↦ (false, e, c.cache)
        | none ↦
            let e : CacheEntry = record { qname = name; qtype = qt; auth = auth; records = [] } in
            (true, e, c.cache ++ (e ∷ []))
      ] in
    record c {
      cachecachevalid = false;
      cache = elim (replace_entry c.follow_rfc2181 now qt content auth is_new stored) [
        | none ↦ cache
        | some ce ↦ store ce cache
      ];
    }

-- The loop of `doWipeCache`; 0xffff stands for every type.
unfoldable pub wipe : Bytes → ℕ → List CacheEntry → ℕ × List CacheEntry
wipe name qtype [] = (0, [])
wipe name qtype (e ∷ cache) =
    let (count, rest) = wipe name qtype cache in
    if pdns_iequals e.qname name && (qtype == 0xffff || e.qtype == qtype)
    then (count + 1, rest)
    else (count, e ∷ rest)

unfoldable pub do_wipe_cache : Bytes → ℕ → MemRecursorCache → ℕ × MemRecursorCache
do_wipe_cache name qtype c =
    let (count, cache) = wipe name qtype c.cache in
    (count, record c { cachecachevalid = false; cache = cache })

unfoldable pub set_ttd : ℕ → List StoredRecord → List StoredRecord
set_ttd ttd [] = []
set_ttd ttd (r ∷ records) = record r { ttd = ttd } ∷ set_ttd ttd records

-- `doAgeCache`; `new_ttl` is an int32_t.
unfoldable pub do_age_cache : ℕ → Bytes → ℕ → ℤ → MemRecursorCache → Bool × MemRecursorCache
do_age_cache now name qtype new_ttl c = elim (find name qtype c.cache) [
  | none ↦ (false, c)
  | some e ↦
      let ttl = to_int32 (get_ttd e + 2 ^ 32 - now % 2 ^ 32) in
      let aged : CacheEntry = record e {
        records = set_ttd ((now + pos_part new_ttl + 2 ^ 32 - neg_part new_ttl) % 2 ^ 32) e.records;
      } in
      if ltb_ℤ ttl (pos 0)
      then (false, c)
      else if ltb_ℤ new_ttl ttl
      then (true, record c { cachecachevalid = false; cache = store aged c.cache })
      else (false, c)
]

-- `doPrune`, at the uint32_t of the time, with the share of "max-cache-entries" of one thread.
unfoldable pub do_prune : ℕ → ℕ → MemRecursorCache → MemRecursorCache
do_prune now max_cached c = record c {
  cachecachevalid = false;
  cache = prune_collection get_ttd (now % 2 ^ 32) max_cached 1000 c.cache;
}

-- `bytes`; a stored record takes four bytes more than its string.
unfoldable pub size_records : List StoredRecord → ℕ
size_records [] = 0
size_records (r ∷ records) = 4 + length r.string + size_records records

unfoldable pub bytes : List CacheEntry → ℕ
bytes [] = 0
bytes (e ∷ cache) = (length e.qname + size_records e.records + bytes cache) % 2 ^ 32
