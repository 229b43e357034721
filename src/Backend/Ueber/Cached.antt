-- ===== src/Backend/Ueber/Cached.antt =====
-- Questions that `UeberBackend` of pdns/pdns/ueberbackend.cc answers from the query cache.
use powerdns_improved_lua.Prelude.{
  ℕ, zero, suc, ◌+◌, ◌<◌, ◌^◌, ◌≡◌, refl, sym, ap, ◌∙◌, inl, inr, true, false, ◌&&◌, List, [], ◌∷◌,
  ◌++◌, length, ◌==◌, if◌then◌else◌, some, arith, Bool-cases, length-append,
}
use powerdns_improved_lua.Prelude.Int.{ℤ, pos, negsuc, ltb_ℤ}
use powerdns_improved_lua.Name.{Bytes, pdns_iequals}
use powerdns_improved_lua.PacketCache.{
  PacketCache, Settings, Key, ◌==ℤ◌, same_key, need_ttls, get_ttls, get_entry_locked, get_entry,
  insert_entry, querycache, to_unsigned,
}
use powerdns_improved_lua.PacketCache.Entries.{made_key, get_entry_locked-insert_entry}
use powerdns_improved_lua.PacketCache.Cleanup.{get_entry_locked-count_op}
use powerdns_improved_lua.Backend.{ResourceRecord, serialize, un_serialize, escape}
use powerdns_improved_lua.Backend.Serialize.{to_unsigned-pos}
use powerdns_improved_lua.Backend.Soa.{Backend}
use powerdns_improved_lua.Backend.Ueber.{
  QuerySettings, Question, UeberBackend, CacheStatus, unknown, negative, positive, cache_has,
  add_neg_cache, add_one_cache, ask_first, lookup, get, get_all,
}
use powerdns_improved_lua.Backend.Ueber.Draining.{
  first_answers, begun, remembered, get_all-lookup, lookup-ask_first,
}

-- The key of a question in the query cache.
abbrev pub key_of : Question → Key
key_of q = record {
  qname = q.qname;
  qtype = q.qtype;
  ctype = querycache;
  zone_id = q.zone_id;
  merits_recursion = false;
}

need_ttls-entries : (s : Settings) (c : PacketCache) → (need_ttls s c).entries ≡ c.entries
unfolding need_ttls get_ttls
need_ttls-entries s c = elim (Bool-cases (ltb_ℤ c.ttl (pos 0))) [
  | inl h ↦ ground arith
  | inr h ↦ ground arith
]

get_entry_locked-need_ttls :
    (s : Settings) (now : ℕ) (k : Key) (c : PacketCache)
    → get_entry_locked now k (need_ttls s c) ≡ get_entry_locked now k c
unfolding get_entry_locked
get_entry_locked-need_ttls s now k c = rw (need_ttls-entries s c)

get_entry-found :
    (s : Settings) (now : ℕ) (k : Key) (c : PacketCache) (value : Bytes)
    → get_entry_locked now k c ≡ some value
    → (get_entry s now true k c).0 ≡ some value
unfolding get_entry
get_entry-found s now k c value h =
    get_entry_locked-count_op s now k (need_ttls s c) value
      (get_entry_locked-need_ttls s now k c ∙ h)

-- What the cache is asked with, and what becomes of its word.
abbrev pub status_of : Bytes → CacheStatus
status_of content = if length content == 0 then negative else positive

cache_has-found :
    (s : QuerySettings) (now : ℕ) (q : Question) (u : UeberBackend) (content : Bytes)
    → (s.negqueryttl ==ℤ pos 0) && (s.queryttl ==ℤ pos 0) ≡ false
    → get_entry_locked now (key_of q) u.pc ≡ some content
    → ((cache_has s now true q u).0 ≡ status_of content)
      × ((cache_has s now true q u).1.answer
          ≡ (if length content == 0 then u.answer else un_serialize u.answer content))
unfolding cache_has
cache_has-found s now q u content on h =
    let there = get_entry-found s.cache now (key_of q) u.pc content h in
    elim (Bool-cases (length content == 0)) [ inl e ↦ ground arith | inr e ↦ ground arith ]

get_all-negative :
    (fuel : ℕ) (s : QuerySettings) (now : ℕ) (first : Backend) (backends : List Backend)
    (q : Question) (v : UeberBackend)
    → (get_all fuel s now true (ask_first first backends q (negative, v))).0 ≡ []
unfolding get_all get ask_first
get_all-negative zero s now first backends q v = refl
get_all-negative (suc fuel) s now first backends q v = refl

get_all-positive :
    (fuel : ℕ) (s : QuerySettings) (now : ℕ) (first : Backend) (backends : List Backend)
    (q : Question) (v : UeberBackend)
    → (get_all (suc (suc fuel)) s now true (ask_first first backends q (positive, v))).0
      ≡ v.answer ∷ []
unfolding get_all get ask_first
get_all-positive fuel s now first backends q v = refl

-- The answers to a question whose key the cache has.
cached_answers :
    (fuel : ℕ) (s : QuerySettings) (now : ℕ) (first : Backend) (backends : List Backend)
    (q : Question) (u : UeberBackend) (content : Bytes)
    → u.stale ≡ false
    → (s.negqueryttl ==ℤ pos 0) && (s.queryttl ==ℤ pos 0) ≡ false
    → get_entry_locked now (key_of q) u.pc ≡ some content
    → (get_all (suc (suc fuel)) s now true (lookup s (first ∷ backends) now true q u).1).0
      ≡ (if length content == 0 then [] else un_serialize u.answer content ∷ [])
cached_answers fuel s now first backends q u content fresh on h =
    let asking = cache_has s now true q (begun s now true first backends q u) in
    let (status, answer) =
      cache_has-found s now q (begun s now true first backends q u) content on h in
    let all : UeberBackend → List ResourceRecord = λ v. (get_all (suc (suc fuel)) s now true v).0 in
    let state : all (lookup s (first ∷ backends) now true q u).1
        ≡ all (ask_first first backends q (status_of content, asking.1)) =
      ap all (lookup-ask_first s now true first backends q u fresh)
      ∙ ap (λ st. all (ask_first first backends q (st, asking.1))) status in
    elim (Bool-cases (length content == 0)) [
      | inl e ↦
          state
          ∙ ap
              (λ b. all (ask_first first backends q ((if b then negative else positive), asking.1)))
              e
          ∙ get_all-negative (suc (suc fuel)) s now first backends q asking.1
          ∙ ap (λ b. if b then [] else un_serialize u.answer content ∷ []) (sym e)
      | inr e ↦
          state
          ∙ ap
              (λ b. all (ask_first first backends q ((if b then negative else positive), asking.1)))
              e
          ∙ get_all-positive fuel s now first backends q asking.1
          ∙ ap (λ (a : ResourceRecord). a ∷ [])
              (answer ∙ ap (λ b. if b then u.answer else un_serialize u.answer content) e)
          ∙ ap (λ b. if b then [] else un_serialize u.answer content ∷ []) (sym e)
    ]

-- A question that the entry of another one is for: of the same name without regard to case and the same
-- type, and without a zone.
abbrev pub Again : Question → Question → Type 0
Again q q' = (pdns_iequals q.qname q'.qname ≡ true) × (q.qtype ≡ q'.qtype) × (q'.zone_id ≡ negsuc 0)

Again-same_key :
    (q q' : Question)
    → Again q q'
    → same_key (made_key q.qname q.qtype querycache false) (key_of q') ≡ true
unfolding same_key
Again-same_key q q' (names, types, zone) = ground arith

inserted-found :
    (s : Settings) (now later n : ℕ) (q q' : Question) (value : Bytes) (c : PacketCache)
    → Again q q'
    → 0 < n
    → later < now + n
    → get_entry_locked later
        (key_of q')
        (insert_entry s now true q.qname q.qtype querycache value n q.zone_id false c)
      ≡ some value
inserted-found s now later n q q' value c again above live =
    let found =
      get_entry_locked-insert_entry s now later q.qname q.qtype querycache value n q.zone_id false c
        (key_of q') (omega arith) in
    let same = Again-same_key q q' again in ground arith

-- The time to live of an entry of the query cache, as an int and as the number that it is.
abbrev pub IsTtl : ℤ → ℕ → Type 0
IsTtl z n = (z ≡ pos n) × (0 < n) × (n < 2 ^ 32)

IsTtl-on : (z : ℤ) (n : ℕ) → IsTtl z n → ((z ==ℤ pos 0) ≡ false) × (to_unsigned z ≡ n)
IsTtl-on z n (same, above, small) =
    (ap (λ t. t ==ℤ pos 0) same ∙ ground arith, ap to_unsigned same ∙ to_unsigned-pos n small)

add_one_cache-pc :
    (s : QuerySettings) (now n : ℕ) (q : Question) (rr : ResourceRecord) (u : UeberBackend)
    → IsTtl s.queryttl n
    → (add_one_cache s now true q rr u).pc
      ≡ insert_entry s.cache now true q.qname q.qtype querycache
          (serialize rr)
          n
          q.zone_id
          false
          u.pc
unfolding add_one_cache
add_one_cache-pc s now n q rr u ttl =
    let (on, number) = IsTtl-on s.queryttl n ttl in rw (on, number)

add_neg_cache-pc :
    (s : QuerySettings) (now n : ℕ) (q : Question) (u : UeberBackend)
    → IsTtl s.negqueryttl n
    → (add_neg_cache s now true q u).pc
      ≡ insert_entry s.cache now true q.qname q.qtype querycache [] n q.zone_id false u.pc
unfolding add_neg_cache
add_neg_cache-pc s now n q u ttl =
    let (on, number) = IsTtl-on s.negqueryttl n ttl in rw (on, number)

append_full : (a : Bytes) (c : ℕ) (t : Bytes) → (length (a ++ (c ∷ t)) == 0) ≡ false
append_full a c t = ground (arith, length-append a (c ∷ t))

serialize_full : (rr : ResourceRecord) → (length (serialize rr) == 0) ≡ false
unfolding serialize
serialize_full rr = append_full (escape rr.qname) b'|' _

-- After a question that the cache did not know and the backends had one answer to, and all calls
-- of `get` for it, with the lock and a time to live n above 0 for answers: until n seconds later,
-- whatever its backends say, an UeberBackend that shares the cache, neither of them stale, answers
-- a question of the same name without regard to case, the same type and no zone, whatever zone the
-- first was for, with that record, read into the last answer that it had from the cache.
pub get_all-one :
    (fuel fuel' now later n : ℕ) (s : QuerySettings) (first first' : Backend)
    (backends backends' : List Backend) (q q' : Question) (u w : UeberBackend) (rr : ResourceRecord)
    → u.stale ≡ false
    → w.stale ≡ false
    → (cache_has s now true q (begun s now true first backends q u)).0 ≡ unknown
    → first_answers q.qtype q.qname (first.lookup q.qtype q.qname q.zone_id) backends ≡ rr ∷ []
    → 1 < fuel
    → IsTtl s.queryttl n
    → later < now + n
    → Again q q'
    → w.pc ≡ (get_all fuel s now true (lookup s (first ∷ backends) now true q u).1).1.pc
    → (get_all (suc (suc fuel')) s later true (lookup s (first' ∷ backends') later true q' w).1).0
      ≡ un_serialize w.answer (serialize rr) ∷ []
get_all-one fuel fuel' now later n s first first' backends backends' q q' u w rr fresh fresh' miss
      one enough ttl live again shared =
    let all = first_answers q.qtype q.qname (first.lookup q.qtype q.qname q.zone_id) backends in
    let asking = (cache_has s now true q (begun s now true first backends q u)).1 in
    let (_, kept) =
      get_all-lookup s now true fuel first backends q u fresh miss (omega (arith, ap length one)) in
    let took : (remembered s now true q all asking).pc ≡ (add_one_cache s now true q rr asking).pc =
      ap (λ answers. (remembered s now true q answers asking).pc) one
      ∙ (unfold remembered in refl) in
    let pc = shared ∙ kept ∙ took ∙ add_one_cache-pc s now n q rr asking ttl in
    let (on, number) = IsTtl-on s.queryttl n ttl in
    let found =
      ap (get_entry_locked later (key_of q')) pc
      ∙ inserted-found s.cache now later n q q' (serialize rr) asking.pc again ttl.1 live in
    cached_answers fuel' s later first' backends' q' w (serialize rr) fresh' (ground arith) found
    ∙ ap (λ b. if b then [] else un_serialize w.answer (serialize rr) ∷ []) (serialize_full rr)

-- After a question for a name that is not empty that the cache did not know and no backend had an
-- answer to, and the call of `get` for it, with the lock and a time to live n above 0 for the
-- absence of answers: until n seconds later, whatever its backends say, an UeberBackend that
-- shares the cache, neither of them stale, gives no answer to a question of the same name without
-- regard to case, the same type and no zone.
pub get_all-none :
    (fuel fuel' now later n : ℕ) (s : QuerySettings) (first first' : Backend)
    (backends backends' : List Backend) (q q' : Question) (u w : UeberBackend)
    → u.stale ≡ false
    → w.stale ≡ false
    → (cache_has s now true q (begun s now true first backends q u)).0 ≡ unknown
    → first_answers q.qtype q.qname (first.lookup q.qtype q.qname q.zone_id) backends ≡ []
    → 0 < fuel
    → 0 < length q.qname
    → IsTtl s.negqueryttl n
    → later < now + n
    → Again q q'
    → w.pc ≡ (get_all fuel s now true (lookup s (first ∷ backends) now true q u).1).1.pc
    → (get_all (suc (suc fuel')) s later true (lookup s (first' ∷ backends') later true q' w).1).0
      ≡ []
get_all-none fuel fuel' now later n s first first' backends backends' q q' u w fresh fresh' miss
      none_there enough named ttl live again shared =
    let all = first_answers q.qtype q.qname (first.lookup q.qtype q.qname q.zone_id) backends in
    let asking = (cache_has s now true q (begun s now true first backends q u)).1 in
    let (_, kept) =
      get_all-lookup s now true fuel first backends q u fresh miss
        (omega (arith, ap length none_there)) in
    let took : (remembered s now true q all asking).pc ≡ (add_neg_cache s now true q asking).pc =
      ap (λ answers. (remembered s now true q answers asking).pc) none_there
      ∙ (unfold remembered in ground arith) in
    let pc = shared ∙ kept ∙ took ∙ add_neg_cache-pc s now n q asking ttl in
    let (on, number) = IsTtl-on s.negqueryttl n ttl in
    let found =
      ap (get_entry_locked later (key_of q')) pc
      ∙ inserted-found s.cache now later n q q' [] asking.pc again ttl.1 live in
    cached_answers fuel' s later first' backends' q' w [] fresh' (ground arith) found
