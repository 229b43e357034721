-- ===== src/RecursorCache/Steps.antt =====
-- Sequences of calls on `MemRecursorCache` of pdns/pdns/recursor_cache.cc: wiping, ageing, pruning,
-- and what holds of every cache that calls can reach.
use powerdns_improved_lua.Prelude.{
  ℕ, false, ◌+◌, ◌-◌, ◌%◌, ◌^◌, ◌≡◌, refl, inl, inr, Bool, ◌&&◌, ◌||◌, List, [], ◌∷◌, length, ◌==◌,
  if◌then◌else◌, none, arith, Option-cases,
}
use powerdns_improved_lua.Prelude.Int.{ℤ, pos_part, neg_part}
use powerdns_improved_lua.Name.{Bytes, pdns_iequals}
use powerdns_improved_lua.Cleaner.Prune.{Kept, end, keep, skip, prune_collection-Kept}
use powerdns_improved_lua.RecursorCache.{
  CacheEntry, StoredRecord, MemRecursorCache, new_cache, get_ttd, find, has_key, get, replace, wipe,
  do_wipe_cache, set_ttd, do_age_cache, do_prune,
}
use powerdns_improved_lua.RecursorCache.Keys.{
  iequals_cong, iequals_cong_right, IsUnique, Kept-IsUnique, store-IsUnique,
}
use powerdns_improved_lua.RecursorCache.Range.{IsCached}
use powerdns_improved_lua.RecursorCache.Get.{get_uncached, get-IsCached, get-find}
use powerdns_improved_lua.RecursorCache.Replace.{replace-IsUnique, replace-uncached}

wipe-Kept : (n : Bytes) (t : ℕ) (cache : List CacheEntry) → Kept (wipe n t cache).1 cache
unfolding wipe
wipe-Kept n t [] = end
wipe-Kept n t (e ∷ cache) =
    let gone = skip e (wipe-Kept n t cache) in
    let kept = keep e (wipe-Kept n t cache) in ground arith

wipe-find :
    (n : Bytes) (t : ℕ) (cache : List CacheEntry) (m : Bytes) (u : ℕ)
    → find m u (wipe n t cache).1
      ≡ (if pdns_iequals n m && (t == 0xffff || u == t) then none else find m u cache)
unfolding wipe find has_key
wipe-find n t [] m u = ground arith
wipe-find n t (e ∷ cache) m u =
    ground
      (arith, wipe-find n t cache m u, iequals_cong e.qname n m, iequals_cong_right n m e.qname)

wipe-length :
    (n : Bytes) (t : ℕ) (cache : List CacheEntry)
    → (wipe n t cache).0 + length (wipe n t cache).1 ≡ length cache
unfolding wipe
wipe-length n t [] = omega arith
wipe-length n t (e ∷ cache) = ground (arith, wipe-length n t cache)

-- Wiping a name and a type, or with 0xffff every type of the name, leaves no such entry, and all
-- others; what it returns is the number of entries that are gone.
pub do_wipe_cache_lem :
    (n : Bytes) (t : ℕ) (c : MemRecursorCache) (m : Bytes) (u : ℕ)
    → (find m u (do_wipe_cache n t c).1.cache
        ≡ (if pdns_iequals n m && (t == 0xffff || u == t) then none else find m u c.cache))
      × ((do_wipe_cache n t c).0 + length (do_wipe_cache n t c).1.cache ≡ length c.cache)
unfolding do_wipe_cache
do_wipe_cache_lem n t c m u = (wipe-find n t c.cache m u, wipe-length n t c.cache)

-- What holds between calls.
pub record IsValid (c : MemRecursorCache) : Type 0 where
  pub unique : IsUnique c.cache
  pub cached : IsCached c

-- The calls, with any arguments.
pub data Step : MemRecursorCache → MemRecursorCache → Type 0 where
  got :
      (c : MemRecursorCache) (now : ℕ) (n : Bytes) (qt : ℕ) (want : Bool)
      → Step c (get now n qt want c).2
  replaced :
      (c : MemRecursorCache) (now : ℕ) (n : Bytes) (qt : ℕ) (content : List StoredRecord)
      (auth : Bool)
      → Step c (replace now n qt content auth c)
  wiped : (c : MemRecursorCache) (n : Bytes) (qt : ℕ) → Step c (do_wipe_cache n qt c).1
  aged :
      (c : MemRecursorCache) (now : ℕ) (n : Bytes) (qt : ℕ) (ttl : ℤ)
      → Step c (do_age_cache now n qt ttl c).1
  pruned : (c : MemRecursorCache) (now max_cached : ℕ) → Step c (do_prune now max_cached c)

pub data Reaches (s : MemRecursorCache) : MemRecursorCache → Type 0 where
  here : Reaches s s
  next : {t u : MemRecursorCache} → Reaches s t → Step t u → Reaches s u

age-IsValid :
    (now : ℕ) (n : Bytes) (qt : ℕ) (ttl : ℤ) (c : MemRecursorCache)
    → IsValid c
    → IsValid (do_age_cache now n qt ttl c).1
unfolding do_age_cache
age-IsValid now n qt ttl c v = elim (Option-cases (find n qt c.cache)) [
  | inl absent ↦ ground arith
  | inr (e, there) ↦
      let aged_entry : CacheEntry = record e {
        records = set_ttd ((now + pos_part ttl + 2 ^ 32 - neg_part ttl) % 2 ^ 32) e.records;
      } in
      let stored = store-IsUnique aged_entry c.cache v.unique in ground arith
]

Step-IsValid : {c d : MemRecursorCache} → Step c d → IsValid c → IsValid d
Step-IsValid (got c now n qt want) v = record {
  unique = (get-find now n qt want c [] 0 v.unique).0;
  cached = get-IsCached now n qt want c v.cached;
}
Step-IsValid (replaced c now n qt content auth) v = record {
  unique = replace-IsUnique now n qt content auth c v.unique;
  cached = inl (replace-uncached now n qt content auth c);
}
Step-IsValid (wiped c n qt) v =
    unfold do_wipe_cache in
    record { unique = Kept-IsUnique (wipe-Kept n qt c.cache) v.unique; cached = inl refl }
Step-IsValid (aged c now n qt ttl) v = age-IsValid now n qt ttl c v
Step-IsValid (pruned c now max_cached) v =
    unfold do_prune in
    record {
      unique =
          Kept-IsUnique (prune_collection-Kept get_ttd (now % 2 ^ 32) max_cached 1000 c.cache)
            v.unique;
      cached = inl refl;
    }

new_cache-IsValid : IsValid new_cache
unfolding new_cache
new_cache-IsValid = record { unique = tt; cached = inl refl }

-- Whatever calls are made of a new cache: no two of its entries have the same name, without regard
-- to case, and type, and the range that `get` has kept is out of use or that of its name.
pub Reaches-IsValid : (c : MemRecursorCache) → Reaches new_cache c → IsValid c
Reaches-IsValid c r = from r
  where
    from : {d : MemRecursorCache} → Reaches new_cache d → IsValid d
    from here = new_cache-IsValid
    from (next r s) = Step-IsValid s (from r)

-- In every cache that calls can reach from a new one, a range that is kept changes nothing but the
-- time that `get` takes: without it the same seconds and answers come out, and the same sequence is
-- left.
pub get_uncached-Reaches :
    (c : MemRecursorCache) (now : ℕ) (n : Bytes) (qt : ℕ) (want : Bool)
    → Reaches new_cache c
    → ((get now n qt want c).0 ≡ (get now n qt want (record c { cachecachevalid = false })).0)
      × ((get now n qt want c).1 ≡ (get now n qt want (record c { cachecachevalid = false })).1)
      × ((get now n qt want c).2.cache
          ≡ (get now n qt want (record c { cachecachevalid = false })).2.cache)
get_uncached-Reaches c now n qt want r = get_uncached now n qt want c (Reaches-IsValid c r).cached
