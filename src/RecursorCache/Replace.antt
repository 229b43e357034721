-- ===== src/RecursorCache/Replace.antt =====
-- What `MemRecursorCache::replace` of pdns/pdns/recursor_cache.cc stores.
use powerdns_improved_lua.Prelude.{
  ℕ, ◌≡◌, ◌≢◌, refl, sym, ap, ◌∙◌, inl, inr, Bool, true, false, List, [], ◌∷◌, ◌++◌, if◌then◌else◌,
  Option, none, some, arith, Bool-cases, Option-cases, append_assoc, append-nil,
}
use powerdns_improved_lua.Name.{Bytes}
use powerdns_improved_lua.RecursorCache.{
  CacheEntry, StoredRecord, MemRecursorCache, find, has_key, store, records_at, get, type_any,
  type_addr, attempt_to_refresh_ns_ttl, sort, store_records, any_alive, replace_entry, replace,
}
use powerdns_improved_lua.RecursorCache.Keys.{
  iequals_refl, iequals_cong, same_key, IsUnique, find_same, find-has_key, has_key-same_key,
  find-store, store-IsUnique, find-append_none, find-append_other, append-IsUnique,
}
use powerdns_improved_lua.RecursorCache.Get.{fresh_answers, get-fresh_answers}

pub store_records_fresh :
    (follow : Bool) (now qt : ℕ) (auth : Bool) (content records : List StoredRecord)
    → store_records follow now qt auth true content records ≡ records ++ content
unfolding store_records
store_records_fresh follow now qt auth [] records = sym (append-nil records)
store_records_fresh follow now qt auth (r ∷ content) records =
    store_records_fresh follow now qt auth content (records ++ (r ∷ []))
    ∙ append_assoc records (r ∷ []) content

-- The entry keeps its key.
entry-key :
    (follow : Bool) (now qt : ℕ) (content : List StoredRecord) (auth is_new : Bool)
    (stored ce : CacheEntry)
    → replace_entry follow now qt content auth is_new stored ≡ some ce
    → (ce.qname ≡ stored.qname) × (ce.qtype ≡ stored.qtype)
unfolding replace_entry
entry-key follow now qt content auth is_new stored ce h = ground arith

-- Data with authority, of any type but NS, takes the place of all that was stored.
entry_auth :
    (follow : Bool) (now qt : ℕ) (content : List StoredRecord) (is_new : Bool) (stored : CacheEntry)
    → qt ≢ 2
    → replace_entry follow now qt content true is_new stored
      ≡ some (record stored { records = sort content; auth = true })
unfolding replace_entry attempt_to_refresh_ns_ttl
entry_auth follow now qt content is_new stored h =
    ground (arith, store_records_fresh follow now qt true content [])

entry_protected :
    (follow : Bool) (now qt : ℕ) (content : List StoredRecord) (stored : CacheEntry)
    → qt ≢ 5
    → qt ≢ 6
    → stored.auth ≡ true
    → any_alive now stored.records ≡ true
    → replace_entry follow now qt content false false stored ≡ none
unfolding replace_entry
entry_protected follow now qt content stored a b c d = ground arith

-- The entry that `replace` works on, and the sequence that it is in.
abbrev pub fresh_entry : Bytes → ℕ → Bool → CacheEntry
fresh_entry name qt auth = record { qname = name; qtype = qt; auth = auth; records = [] }

abbrev pub put_entry : Option CacheEntry → List CacheEntry → List CacheEntry
put_entry none cache = cache
put_entry (some ce) cache = store ce cache

replace_stored :
    (now : ℕ) (n : Bytes) (qt : ℕ) (content : List StoredRecord) (auth : Bool)
    (c : MemRecursorCache) (e : CacheEntry)
    → find n qt c.cache ≡ some e
    → (replace now n qt content auth c).cache
      ≡ put_entry (replace_entry c.follow_rfc2181 now qt content auth false e) c.cache
unfolding replace
replace_stored now n qt content auth c e h = ground arith

replace_new :
    (now : ℕ) (n : Bytes) (qt : ℕ) (content : List StoredRecord) (auth : Bool)
    (c : MemRecursorCache)
    → find n qt c.cache ≡ none
    → (replace now n qt content auth c).cache
      ≡ put_entry
          (replace_entry c.follow_rfc2181 now qt content auth true (fresh_entry n qt auth))
          (c.cache ++ (fresh_entry n qt auth ∷ []))
unfolding replace
replace_new now n qt content auth c h = ground arith

-- A sequence with an entry put in its place.
find-put_entry :
    (m : Bytes) (u : ℕ) (old ce : CacheEntry) (cache : List CacheEntry)
    → find old.qname old.qtype cache ≡ some old
    → (ce.qname ≡ old.qname) × (ce.qtype ≡ old.qtype)
    → find m u (store ce cache)
      ≡ (if same_key old.qname old.qtype m u then some ce else find m u cache)
find-put_entry m u old ce cache h (k, l) =
    let there : find ce.qname ce.qtype cache ≡ some old = rw (k, l) h in
    find-store m u ce old cache there ∙ rw (k, l) refl

key-same_key :
    (n m : Bytes) (t u : ℕ) (e : CacheEntry)
    → has_key n t e ≡ true
    → same_key e.qname e.qtype m u ≡ same_key n t m u
unfolding has_key
key-same_key n m t u e h = ground (arith, iequals_cong e.qname n m)

find_self :
    (n : Bytes) (t : ℕ) (cache : List CacheEntry) (e : CacheEntry)
    → find n t cache ≡ some e
    → find e.qname e.qtype cache ≡ some e
find_self n t cache e h =
    let own = find-has_key n t cache h in
    let same : same_key e.qname e.qtype n t ≡ true =
      key-same_key n n t t e own ∙ ground (arith, iequals_refl n) in
    find_same e.qname n e.qtype t cache same ∙ h

pub find-replace_stored :
    (now : ℕ) (n : Bytes) (qt : ℕ) (content : List StoredRecord) (auth : Bool)
    (c : MemRecursorCache) (e ce : CacheEntry) (m : Bytes) (u : ℕ)
    → find n qt c.cache ≡ some e
    → replace_entry c.follow_rfc2181 now qt content auth false e ≡ some ce
    → find m u (replace now n qt content auth c).cache
      ≡ (if same_key n qt m u then some ce else find m u c.cache)
find-replace_stored now n qt content auth c e ce m u h k =
    let key = entry-key c.follow_rfc2181 now qt content auth false e ce k in
    let same = key-same_key n m qt u e (find-has_key n qt c.cache h) in
    ap (find m u) (replace_stored now n qt content auth c e h ∙ rw k refl)
    ∙ find-put_entry m u e ce c.cache (find_self n qt c.cache e h) key
    ∙ rw same refl

-- The sequence with an entry for the key at its end.
find-appended :
    (n : Bytes) (qt : ℕ) (auth : Bool) (cache : List CacheEntry)
    → find n qt cache ≡ none
    → find n qt (cache ++ (fresh_entry n qt auth ∷ [])) ≡ some (fresh_entry n qt auth)
find-appended n qt auth cache h =
    find-append_none n qt cache (fresh_entry n qt auth ∷ []) h
    ∙ unfold find has_key in rw (iequals_refl n) (ground arith)

pub find-replace_new :
    (now : ℕ) (n : Bytes) (qt : ℕ) (content : List StoredRecord) (auth : Bool)
    (c : MemRecursorCache) (ce : CacheEntry) (m : Bytes) (u : ℕ)
    → find n qt c.cache ≡ none
    → replace_entry c.follow_rfc2181 now qt content auth true (fresh_entry n qt auth) ≡ some ce
    → find m u (replace now n qt content auth c).cache
      ≡ (if same_key n qt m u then some ce else find m u c.cache)
find-replace_new now n qt content auth c ce m u h k =
    let e = fresh_entry n qt auth in
    let key = entry-key c.follow_rfc2181 now qt content auth true e ce k in
    let last = find-appended n qt auth c.cache h in
    let own : has_key n qt e ≡ true = find-has_key n qt (c.cache ++ (e ∷ [])) last in
    ap (find m u) (replace_new now n qt content auth c h ∙ rw k refl)
    ∙ find-put_entry m u e ce (c.cache ++ (e ∷ [])) last key
    ∙ elim (Bool-cases (same_key n qt m u)) [
      | inl same ↦ rw same refl
      | inr other ↦
          let miss = has_key-same_key n m qt u e own ∙ other in
          rw other (find-append_other m u c.cache e miss)
    ]

pub records_of :
    (n : Bytes) (t : ℕ) (cache : List CacheEntry) {e : CacheEntry}
    → find n t cache ≡ some e
    → records_at n t cache ≡ e.records
unfolding records_at
records_of n t cache h = ground arith

-- After data with authority, of any type but NS, the key has these records, in the order of their
-- strings.
pub records-replace_auth :
    (now : ℕ) (n : Bytes) (qt : ℕ) (content : List StoredRecord) (c : MemRecursorCache)
    → qt ≢ 2
    → records_at n qt (replace now n qt content true c).cache ≡ sort content
records-replace_auth now n qt content c h =
    let same : same_key n qt n qt ≡ true = ground (arith, iequals_refl n) in
    elim (Option-cases (find n qt c.cache)) [
      | inl absent ↦
          let e = fresh_entry n qt true in
          let stored = entry_auth c.follow_rfc2181 now qt content true e h in
          let found = find-replace_new now n qt content true c _ n qt absent stored in
          records_of n qt _ (rw same at found)
      | inr (e, there) ↦
          let stored = entry_auth c.follow_rfc2181 now qt content false e h in
          let found = find-replace_stored now n qt content true c e _ n qt there stored in
          records_of n qt _ (rw same at found)
    ]

pub replace-uncached :
    (now : ℕ) (n : Bytes) (qt : ℕ) (content : List StoredRecord) (auth : Bool)
    (c : MemRecursorCache)
    → (replace now n qt content auth c).cachecachevalid ≡ false
unfolding replace
replace-uncached now n qt content auth c = refl

-- Once data with authority is stored for a name and a type, `get` with a set for the answers gives that
-- data at any time, as far as it is fresh then, whatever was stored before. The type is no NS, ANY or
-- ADDR.
pub get-replace :
    (now later : ℕ) (n : Bytes) (qt : ℕ) (want : Bool) (content : List StoredRecord)
    (c : MemRecursorCache)
    → qt ≢ 2
    → qt ≢ type_any
    → qt ≢ type_addr
    → (get later n qt want (replace now n qt content true c)).1
      ≡ (if want then fresh_answers later qt (sort content) else [])
get-replace now later n qt want content c a b d =
    get-fresh_answers later n qt want (replace now n qt content true c)
      (inl (replace-uncached now n qt content true c)) b d
    ∙ ap (λ records. if want then fresh_answers later qt records else [])
        (records-replace_auth now n qt content c a)

-- Data without authority does not take the place of data with authority while a record of that is
-- alive: the entries stay as they are. The type is no SOA and no CNAME.
pub replace-protected :
    (now : ℕ) (n : Bytes) (qt : ℕ) (content : List StoredRecord) (c : MemRecursorCache)
    (e : CacheEntry)
    → find n qt c.cache ≡ some e
    → e.auth ≡ true
    → any_alive now e.records ≡ true
    → qt ≢ 5
    → qt ≢ 6
    → (replace now n qt content false c).cache ≡ c.cache
replace-protected now n qt content c e h a l p q =
    let kept = entry_protected c.follow_rfc2181 now qt content e p q a l in
    replace_stored now n qt content false c e h ∙ rw kept refl

-- What is stored for other names and types stays.
pub find-replace_other :
    (now : ℕ) (n : Bytes) (qt : ℕ) (content : List StoredRecord) (auth : Bool)
    (c : MemRecursorCache) (m : Bytes) (u : ℕ)
    → same_key n qt m u ≡ false
    → find m u (replace now n qt content auth c).cache ≡ find m u c.cache
find-replace_other now n qt content auth c m u other = elim (Option-cases (find n qt c.cache)) [
  | inl absent ↦
      let e = fresh_entry n qt auth in
      let miss =
        has_key-same_key n m qt u e
          (find-has_key n qt (c.cache ++ (e ∷ [])) (find-appended n qt auth c.cache absent))
        ∙ other in
      elim (Option-cases (replace_entry c.follow_rfc2181 now qt content auth true e)) [
        | inl nothing ↦
            ap (find m u) (replace_new now n qt content auth c absent ∙ rw nothing refl)
            ∙ find-append_other m u c.cache e miss
        | inr (ce, stored) ↦
            find-replace_new now n qt content auth c ce m u absent stored ∙ rw other refl
      ]
  | inr (e, there) ↦
      elim (Option-cases (replace_entry c.follow_rfc2181 now qt content auth false e)) [
        | inl nothing ↦
            ap (find m u) (replace_stored now n qt content auth c e there ∙ rw nothing refl)
        | inr (ce, stored) ↦
            find-replace_stored now n qt content auth c e ce m u there stored ∙ rw other refl
      ]
]

put_entry-IsUnique :
    (entry : Option CacheEntry) (cache : List CacheEntry)
    → IsUnique cache
    → IsUnique (put_entry entry cache)
put_entry-IsUnique none cache h = h
put_entry-IsUnique (some ce) cache h = store-IsUnique ce cache h

pub replace-IsUnique :
    (now : ℕ) (n : Bytes) (qt : ℕ) (content : List StoredRecord) (auth : Bool)
    (c : MemRecursorCache)
    → IsUnique c.cache
    → IsUnique (replace now n qt content auth c).cache
replace-IsUnique now n qt content auth c h = elim (Option-cases (find n qt c.cache)) [
  | inl absent ↦
      let e = fresh_entry n qt auth in
      rw (replace_new now n qt content auth c absent) (
        put_entry-IsUnique (replace_entry c.follow_rfc2181 now qt content auth true e)
          (c.cache ++ (e ∷ [])) (append-IsUnique c.cache e absent h))
  | inr (e, there) ↦
      rw (replace_stored now n qt content auth c e there)
        (put_entry-IsUnique (replace_entry c.follow_rfc2181 now qt content auth false e) c.cache h)
]
