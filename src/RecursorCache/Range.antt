-- ===== src/RecursorCache/Range.antt =====
-- The range of a name's entries, which `MemRecursorCache::get` of pdns/pdns/recursor_cache.cc keeps
-- from one call to the next.
use powerdns_improved_lua.Prelude.{
  ℕ, ◌≡◌, refl, ap, ◌∙◌, ◌⊎◌, inl, inr, Bool, true, false, ◌||◌, List, [], ◌∷◌, ◌++◌, ◌==◌,
  if◌then◌else◌, none, some, arith, Option-cases,
}
use powerdns_improved_lua.Name.{Bytes, pdns_iequals}
use powerdns_improved_lua.RecursorCache.{
  CacheEntry, MemRecursorCache, has_key, find, erase, move_to, insert_type, equal_range,
}
use powerdns_improved_lua.RecursorCache.Keys.{iequals_cong_right}
use powerdns_improved_lua.RecursorCache.Moves.{move_to-none, move_to-some}

insert_type_comm :
    (a b : ℕ) (types : List ℕ)
    → insert_type a (insert_type b types) ≡ insert_type b (insert_type a types)
unfolding insert_type
insert_type_comm a b [] = ground arith
insert_type_comm a b (t ∷ types) = ground (arith, insert_type_comm a b types)

range-cons :
    (n : Bytes) (e : CacheEntry) (cache : List CacheEntry)
    → equal_range n (e ∷ cache) ≡ (
        if pdns_iequals e.qname n
        then insert_type e.qtype (equal_range n cache)
        else equal_range n cache)
unfolding equal_range
range-cons n e cache = refl

-- Two entries the other way round.
range_swap :
    (n : Bytes) (e x : CacheEntry) (cache : List CacheEntry)
    → equal_range n (e ∷ x ∷ cache) ≡ equal_range n (x ∷ e ∷ cache)
unfolding equal_range
range_swap n e x cache = ground (arith, insert_type_comm e.qtype x.qtype (equal_range n cache))

range-cong_tail :
    (n : Bytes) (e : CacheEntry) (xs ys : List CacheEntry)
    → equal_range n xs ≡ equal_range n ys
    → equal_range n (e ∷ xs) ≡ equal_range n (e ∷ ys)
unfolding equal_range
range-cong_tail n e xs ys h = rw h refl

equal_range-append :
    (n : Bytes) (e : CacheEntry) (cache : List CacheEntry)
    → equal_range n (cache ++ (e ∷ [])) ≡ equal_range n (e ∷ cache)
equal_range-append n e [] = refl
equal_range-append n e (x ∷ cache) =
    range-cong_tail n x (cache ++ (e ∷ [])) (e ∷ cache) (equal_range-append n e cache)
    ∙ range_swap n x e cache

erase_head :
    (m : Bytes) (t : ℕ) (x : CacheEntry) (cache : List CacheEntry)
    → has_key m t x ≡ true
    → erase m t (x ∷ cache) ≡ cache
unfolding erase
erase_head m t x cache h = ground arith

erase_tail :
    (m : Bytes) (t : ℕ) (x : CacheEntry) (cache : List CacheEntry)
    → has_key m t x ≡ false
    → erase m t (x ∷ cache) ≡ x ∷ erase m t cache
unfolding erase
erase_tail m t x cache h = ground arith

find_head_some :
    (m : Bytes) (t : ℕ) (x : CacheEntry) (cache : List CacheEntry) {e : CacheEntry}
    → find m t (x ∷ cache) ≡ some e
    → ((has_key m t x ≡ true) × (e ≡ x)) ⊎ ((has_key m t x ≡ false) × (find m t cache ≡ some e))
unfolding find
find_head_some m t x cache h = ground arith

equal_range-erase :
    (n m : Bytes) (t : ℕ) (cache : List CacheEntry) (e : CacheEntry)
    → find m t cache ≡ some e
    → equal_range n (e ∷ erase m t cache) ≡ equal_range n cache
equal_range-erase n m t [] e h = unfold find in cc
equal_range-erase n m t (x ∷ cache) e h = elim (find_head_some m t x cache h) [
  | inl (hit, same) ↦ rw (erase_head m t x cache hit, same) refl
  | inr (miss, found) ↦
      ap (λ (r : List CacheEntry). equal_range n (e ∷ r)) (erase_tail m t x cache miss)
      ∙ range_swap n e x (erase m t cache)
      ∙ range-cong_tail n x (e ∷ erase m t cache) cache (equal_range-erase n m t cache e found)
]

range-put_back :
    (front : Bool) (n m : Bytes) (t : ℕ) (cache : List CacheEntry) (e : CacheEntry)
    → find m t cache ≡ some e
    → equal_range n (if front then e ∷ erase m t cache else erase m t cache ++ (e ∷ []))
      ≡ equal_range n cache
range-put_back true n m t cache e h = equal_range-erase n m t cache e h
range-put_back false n m t cache e h =
    equal_range-append n e (erase m t cache) ∙ equal_range-erase n m t cache e h

-- Moving an entry in the sequence leaves the ranges of the ordered index.
pub equal_range-move_to :
    (front : Bool) (n m : Bytes) (t : ℕ) (cache : List CacheEntry)
    → equal_range n (move_to front m t cache) ≡ equal_range n cache
equal_range-move_to front n m t cache = elim (Option-cases (find m t cache)) [
  | inl absent ↦ ap (equal_range n) (move_to-none front m t cache absent)
  | inr (e, found) ↦
      ap (equal_range n) (move_to-some front m t cache e found)
      ∙ range-put_back front n m t cache e found
]

pub equal_range_cong :
    (n m : Bytes) (cache : List CacheEntry)
    → pdns_iequals n m ≡ true
    → equal_range n cache ≡ equal_range m cache
unfolding equal_range
equal_range_cong n m [] h = refl
equal_range_cong n m (e ∷ cache) h =
    ground (arith, equal_range_cong n m cache h, iequals_cong_right n m e.qname h)

-- The range that is kept is out of use, or the one of its name.
abbrev pub IsCached : MemRecursorCache → Type 0
IsCached c = (c.cachecachevalid ≡ false) ⊎ (c.cachecache ≡ equal_range c.cachedqname c.cache)

abbrev pub contains : ℕ → List ℕ → Bool
contains t [] = false
contains t (u ∷ types) = t == u || contains t types

contains-insert_type :
    (t u : ℕ) (types : List ℕ) → contains t (insert_type u types) ≡ (t == u || contains t types)
unfolding insert_type
contains-insert_type t u [] = refl
contains-insert_type t u (v ∷ types) = ground (arith, contains-insert_type t u types)

-- The types of a range are those of the entries that are found.
pub find-contains :
    (n : Bytes) (t : ℕ) (cache : List CacheEntry)
    → contains t (equal_range n cache) ≡ false
    → find n t cache ≡ none
unfolding find equal_range has_key
find-contains n t [] h = refl
find-contains n t (e ∷ cache) h =
    ground (arith, find-contains n t cache, contains-insert_type t e.qtype (equal_range n cache))
