-- ===== src/RecursorCache/Single.antt =====
-- What `MemRecursorCache::replace` of pdns/pdns/recursor_cache.cc stores of SOA records and CNAMEs.
use powerdns_improved_lua.Prelude.{
  ℕ, ◌≡◌, refl, sym, ap, ◌∙◌, ◌⊎◌, inl, inr, Bool, true, false, ◌||◌, List, [], ◌∷◌, ◌++◌,
  if◌then◌else◌, Option, none, some, arith, Bool-cases, Option-cases,
}
use powerdns_improved_lua.Name.{Bytes, bytes_eq, bytes_eq_iff}
use powerdns_improved_lua.RecursorCache.{
  CacheEntry, StoredRecord, MemRecursorCache, find, records_at, attempt_to_refresh_ns_ttl, sort,
  insert_record, store_records, any_alive, any_equal, replace_entry, replace, refresh,
}
use powerdns_improved_lua.RecursorCache.Keys.{iequals_refl, same_key}
use powerdns_improved_lua.RecursorCache.Replace.{
  store_records_fresh, fresh_entry, find-replace_new, find-replace_stored, records_of,
}

abbrev pub is_none : Option CacheEntry → Bool
is_none none = true
is_none (some e) = false

-- What the entry of an SOA or a CNAME holds after new content: the old records are gone before. New
-- content for a new entry, or with authority, is put in the order of its strings; content without
-- authority for a stored entry is taken up record by record, where equal strings make one record.
abbrev pub single_records : Bool → ℕ → ℕ → List StoredRecord → Bool → Bool → List StoredRecord
single_records follow now qt content auth is_new =
    if auth || is_new then sort content else store_records follow now qt false false content []

entry_single :
    (follow : Bool) (now qt : ℕ) (content : List StoredRecord) (auth is_new : Bool)
    (stored : CacheEntry)
    → (qt ≡ 5) ⊎ (qt ≡ 6)
    → replace_entry follow now qt content auth is_new stored
      ≡ some (record stored {
        records = single_records follow now qt content auth is_new;
        auth = auth;
      })
unfolding replace_entry any_alive attempt_to_refresh_ns_ttl
entry_single follow now qt content true is_new stored h =
    ground (arith, store_records_fresh follow now qt true content [])
entry_single follow now qt content false true stored h =
    ground (arith, store_records_fresh follow now qt false content [])
entry_single follow now qt content false false stored h = ground arith

any_equal-insert_record :
    (s : Bytes) (r : StoredRecord) (records : List StoredRecord)
    → any_equal s (insert_record r records) ≡ (bytes_eq r.string s || any_equal s records)
unfolding any_equal insert_record
any_equal-insert_record s r [] = refl
any_equal-insert_record s r (x ∷ records) = ground (arith, any_equal-insert_record s r records)

any_equal-sort :
    (s : Bytes) (records : List StoredRecord) → any_equal s (sort records) ≡ any_equal s records
unfolding any_equal sort
any_equal-sort s [] = refl
any_equal-sort s (r ∷ records) =
    ground (arith, any_equal-insert_record s r (sort records), any_equal-sort s records)

any_equal-append :
    (s : Bytes) (xs ys : List StoredRecord)
    → any_equal s (xs ++ ys) ≡ (any_equal s xs || any_equal s ys)
unfolding any_equal
any_equal-append s [] ys = refl
any_equal-append s (x ∷ xs) ys = ground (arith, any_equal-append s xs ys)

any_equal-refresh :
    (s : Bytes) (follow : Bool) (now qt : ℕ) (auth : Bool) (r : StoredRecord)
    (records : List StoredRecord)
    → any_equal s (refresh follow now qt auth r records) ≡ any_equal s records
unfolding any_equal refresh
any_equal-refresh s follow now qt auth r [] = refl
any_equal-refresh s follow now qt auth r (x ∷ records) =
    ground (arith, any_equal-refresh s follow now qt auth r records)

any_equal-same :
    (s t : Bytes) (records : List StoredRecord)
    → bytes_eq t s ≡ true
    → any_equal t records ≡ true
    → any_equal s records ≡ true
any_equal-same s t records h k = ap (λ u. any_equal u records) (sym ((bytes_eq_iff t s).0 h)) ∙ k

any_equal-store_records :
    (s : Bytes) (follow : Bool) (now qt : ℕ) (content records : List StoredRecord)
    → any_equal s (store_records follow now qt false false content records)
      ≡ (any_equal s records || any_equal s content)
unfolding any_equal store_records
any_equal-store_records s follow now qt [] records = ground arith
any_equal-store_records s follow now qt (r ∷ content) records =
    elim (Bool-cases (any_equal r.string records)) [
      | inl there ↦ ground (
        arith,
        any_equal-store_records s follow now qt content (refresh follow now qt false r records),
        any_equal-refresh s follow now qt false r records,
        any_equal-same s r.string records,
      )
      | inr absent ↦ ground (
        arith,
        any_equal-store_records s follow now qt content (sort (records ++ (r ∷ []))),
        any_equal-sort s (records ++ (r ∷ [])),
        any_equal-append s records (r ∷ []),
      )
    ]

any_equal-single_records :
    (s : Bytes) (follow : Bool) (now qt : ℕ) (content : List StoredRecord) (auth is_new : Bool)
    → any_equal s (single_records follow now qt content auth is_new) ≡ any_equal s content
any_equal-single_records s follow now qt content auth is_new = elim (Bool-cases (auth || is_new)) [
  | inl whole ↦ ground (arith, any_equal-sort s content)
  | inr merged ↦
      let empty : any_equal s [] ≡ false = unfold any_equal in refl in
      ground (arith, any_equal-store_records s follow now qt content [])
]

records_at-replace_single :
    (now : ℕ) (n : Bytes) (qt : ℕ) (content : List StoredRecord) (auth : Bool)
    (c : MemRecursorCache)
    → (qt ≡ 5) ⊎ (qt ≡ 6)
    → records_at n qt (replace now n qt content auth c).cache
      ≡ single_records c.follow_rfc2181 now qt content auth (is_none (find n qt c.cache))
records_at-replace_single now n qt content auth c h =
    let same : same_key n qt n qt ≡ true = ground (arith, iequals_refl n) in
    let records : Bool → List StoredRecord =
      λ is_new. single_records c.follow_rfc2181 now qt content auth is_new in
    elim (Option-cases (find n qt c.cache)) [
      | inl absent ↦
          let e = fresh_entry n qt auth in
          let stored = entry_single c.follow_rfc2181 now qt content auth true e h in
          let found = find-replace_new now n qt content auth c _ n qt absent stored in
          records_of n qt _ (rw same at found) ∙ ap (λ o. records (is_none o)) (sym absent)
      | inr (e, there) ↦
          let stored = entry_single c.follow_rfc2181 now qt content auth false e h in
          let found = find-replace_stored now n qt content auth c e _ n qt there stored in
          records_of n qt _ (rw same at found) ∙ ap (λ o. records (is_none o)) (sym there)
    ]

-- Of an SOA or a CNAME, what is stored after `replace` is made of the new content alone: the records
-- that were stored are gone, be they alive and with authority and the new ones without. With
-- authority, or where there was no entry, all of the content is stored, in the order of its strings;
-- else it is what the loop over the content makes of no records. In each case a string is stored
-- exactly if it is one of the content's.
pub records-replace_single :
    (now : ℕ) (n : Bytes) (qt : ℕ) (content : List StoredRecord) (auth : Bool)
    (c : MemRecursorCache) (s : Bytes)
    → (qt ≡ 5) ⊎ (qt ≡ 6)
    → (let stored = records_at n qt (replace now n qt content auth c).cache in
        (stored ≡ single_records c.follow_rfc2181 now qt content auth (is_none (find n qt c.cache)))
        × (any_equal s stored ≡ any_equal s content))
records-replace_single now n qt content auth c s h =
    let same = records_at-replace_single now n qt content auth c h in
    (
      same,
      ap (any_equal s) same
          ∙ any_equal-single_records s c.follow_rfc2181 now qt content auth
              (is_none (find n qt c.cache)),
    )
