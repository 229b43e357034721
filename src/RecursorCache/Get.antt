-- ===== src/RecursorCache/Get.antt =====
-- What `MemRecursorCache::get` of pdns/pdns/recursor_cache.cc finds.
use powerdns_improved_lua.Prelude.{
  ℕ, ◌≡◌, ap, ◌≢◌, refl, sym, ◌∙◌, inl, inr, Bool, true, false, ◌&&◌, ◌||◌, List, [], ◌∷◌, ◌++◌,
  length, ◌==◌, if◌then◌else◌, none, arith, Bool-cases, append_assoc, append-nil,
}
use powerdns_improved_lua.Name.{Bytes, pdns_iequals}
use powerdns_improved_lua.RecursorCache.{
  CacheEntry, StoredRecord, MemRecursorCache, Answer, find, move_to, equal_range, is_fresh, collect,
  type_any, type_addr, wants, records_at, get_loop, get_range, get,
}
use powerdns_improved_lua.RecursorCache.Keys.{IsUnique}
use powerdns_improved_lua.RecursorCache.Moves.{find-move_to, move_to-IsUnique}
use powerdns_improved_lua.RecursorCache.Range.{
  equal_range-move_to, equal_range_cong, IsCached, contains, find-contains,
}

-- The answers that the records of one entry give: those that are fresh, in their order.
pub fresh_answers : ℕ → ℕ → List StoredRecord → List Answer
fresh_answers now t [] = []
fresh_answers now t (r ∷ records) =
    let rest = fresh_answers now t records in
    if is_fresh now r then record { qtype = t; string = r.string; ttd = r.ttd } ∷ rest else rest

collect-fresh_answers :
    (now t : ℕ) (records : List StoredRecord) (ttd : ℕ) (res : List Answer)
    → (collect now t records ttd res).1 ≡ res ++ fresh_answers now t records
unfolding collect fresh_answers
collect-fresh_answers now t [] ttd res = sym (append-nil res)
collect-fresh_answers now t (r ∷ records) ttd res =
    let answer : Answer = record { qtype = t; string = r.string; ttd = r.ttd } in
    ground (
      arith,
      collect-fresh_answers now t records r.ttd (res ++ (answer ∷ [])),
      collect-fresh_answers now t records ttd res,
      append_assoc res (answer ∷ []) (fresh_answers now t records),
    )

-- What a loop that asks for one type answers.
loop_one :
    (now : ℕ) (n : Bytes) (qt : ℕ) (want : Bool) (types : List ℕ) (cache : List CacheEntry)
    → qt ≢ type_any
    → qt ≢ type_addr
    → contains qt types ≡ true
    → (get_loop now n qt want types 0 [] cache).1 ≡ fresh_answers now qt (records_at n qt cache)
unfolding get_loop wants
loop_one now n qt want [] cache a b h = cc
loop_one now n qt want (t ∷ types) cache a b h = ground (
  arith,
  loop_one now n qt want types cache a b,
  collect-fresh_answers now qt (records_at n qt cache) 0 [],
)

loop_none :
    (now : ℕ) (n : Bytes) (qt : ℕ) (want : Bool) (types : List ℕ) (cache : List CacheEntry)
    → qt ≢ type_any
    → qt ≢ type_addr
    → contains qt types ≡ false
    → (get_loop now n qt want types 0 [] cache).1 ≡ []
unfolding get_loop wants
loop_none now n qt want [] cache a b h = refl
loop_none now n qt want (t ∷ types) cache a b h =
    ground (arith, loop_none now n qt want types cache a b)

-- The loop changes the sequence only by moving entries.
loop-keeps :
    (P : List CacheEntry → Type 0) (now : ℕ) (n : Bytes) (qt : ℕ) (want : Bool) (types : List ℕ)
    (ttd : ℕ) (res : List Answer) (cache : List CacheEntry)
    → ((front : Bool) (t : ℕ) (c : List CacheEntry) → P c → P (move_to front n t c))
    → P cache
    → P (get_loop now n qt want types ttd res cache).2
unfolding get_loop
loop-keeps P now n qt want [] ttd res cache keep h = h
loop-keeps P now n qt want (t ∷ types) ttd res cache keep h =
    let (ttd', res') = collect now t (records_at n t cache) ttd res in
    let cache' = if want then move_to (length res' == 0) n t cache else cache in
    let moved : P cache' = moved_or_not want (keep (length res' == 0) t cache h) in
    let further = loop-keeps P now n qt want types ttd' res' cache' keep moved in
    let missed = loop-keeps P now n qt want types ttd res cache keep h in
    pick (wants qt t) (qt == type_any || qt == type_addr)
      (get_loop now n qt want types ttd' res' cache') (ttd', res', cache')
      (get_loop now n qt want types ttd res cache) further moved missed
  where
    moved_or_not : (b : Bool) {c : List CacheEntry} → P c → P (if b then c else cache)
    moved_or_not true k = k
    moved_or_not false k = h

    pick :
        (hit more : Bool) (a b c : ℕ × List Answer × List CacheEntry)
        → P a.2
        → P b.2
        → P c.2
        → P (if hit then (elim more [ true ↦ a | false ↦ b ]) else c).2
    pick true true a b c x y z = x
    pick true false a b c x y z = y
    pick false more a b c x y z = z

pub loop-find :
    (now : ℕ) (n : Bytes) (qt : ℕ) (want : Bool) (types : List ℕ) (ttd : ℕ) (res : List Answer)
    (cache : List CacheEntry) (m : Bytes) (u : ℕ)
    → IsUnique cache
    → IsUnique (get_loop now n qt want types ttd res cache).2
      × (find m u (get_loop now n qt want types ttd res cache).2 ≡ find m u cache)
loop-find now n qt want types ttd res cache m u h =
    loop-keeps (λ c. IsUnique c × (find m u c ≡ find m u cache)) now n qt want types ttd res cache
      (λ front t c (k, e). (move_to-IsUnique front n t c k, find-move_to front m n u t c k ∙ e))
      (h, refl)

pub loop-range :
    (now : ℕ) (n : Bytes) (qt : ℕ) (want : Bool) (types : List ℕ) (ttd : ℕ) (res : List Answer)
    (cache : List CacheEntry) (m : Bytes)
    → equal_range m (get_loop now n qt want types ttd res cache).2 ≡ equal_range m cache
loop-range now n qt want types ttd res cache m =
    loop-keeps (λ c. equal_range m c ≡ equal_range m cache) now n qt want types ttd res cache
      (λ front t c e. equal_range-move_to front m n t c ∙ e) refl

-- The range that `get` uses is the one of the name.
pub range_used :
    (n : Bytes) (c : MemRecursorCache)
    → IsCached c
    → (if c.cachecachevalid && pdns_iequals c.cachedqname n
        then c.cachecache
        else equal_range n c.cache)
      ≡ equal_range n c.cache
range_used n c h = ground (arith, equal_range_cong c.cachedqname n c.cache)

-- The results do not show what name the range is kept for.
range_results :
    (now : ℕ) (n : Bytes) (qt : ℕ) (want : Bool) (range : List ℕ) (kept kept' : Bytes)
    (c : MemRecursorCache) (b : Bool)
    → ((get_range now n qt want range kept c).0
        ≡ (get_range now n qt want range kept' (record c { cachecachevalid = b })).0)
      × ((get_range now n qt want range kept c).1
          ≡ (get_range now n qt want range kept' (record c { cachecachevalid = b })).1)
      × ((get_range now n qt want range kept c).2.cache
          ≡ (get_range now n qt want range kept' (record c { cachecachevalid = b })).2.cache)
unfolding get_range
range_results now n qt want range kept kept' c b = ground arith

-- Where the range that is kept is the one of its name, it changes nothing but the time that `get`
-- takes: without it the same seconds and answers come out, and the same sequence is left.
pub get_uncached :
    (now : ℕ) (n : Bytes) (qt : ℕ) (want : Bool) (c : MemRecursorCache)
    → IsCached c
    → ((get now n qt want c).0 ≡ (get now n qt want (record c { cachecachevalid = false })).0)
      × ((get now n qt want c).1 ≡ (get now n qt want (record c { cachecachevalid = false })).1)
      × ((get now n qt want c).2.cache
          ≡ (get now n qt want (record c { cachecachevalid = false })).2.cache)
unfolding get
get_uncached now n qt want c h =
    let hit = c.cachecachevalid && pdns_iequals c.cachedqname n in
    rw (range_used n c h) (
      range_results now n qt want (equal_range n c.cache) (if hit then c.cachedqname else n) n c
        false)

-- What `get` makes of the cache.
get_range-state :
    (now : ℕ) (n : Bytes) (qt : ℕ) (want : Bool) (range : List ℕ) (kept : Bytes)
    (c : MemRecursorCache)
    → (get_range now n qt want range kept c).2 ≡ record c {
      cache = (get_loop now n qt want range 0 [] c.cache).2;
      cachecache = range;
      cachedqname = kept;
      cachecachevalid = true;
    }
unfolding get_range
get_range-state now n qt want range kept c = ground arith

pub get-IsCached :
    (now : ℕ) (n : Bytes) (qt : ℕ) (want : Bool) (c : MemRecursorCache)
    → IsCached c
    → IsCached (get now n qt want c).2
unfolding get
get-IsCached now n qt want c h =
    let hit = c.cachecachevalid && pdns_iequals c.cachedqname n in
    let range = if hit then c.cachecache else equal_range n c.cache in
    let kept = if hit then c.cachedqname else n in
    let same : equal_range kept c.cache ≡ equal_range n c.cache =
      ground (arith, equal_range_cong c.cachedqname n c.cache) in
    rw (get_range-state now n qt want range kept c)
      (inr (range_used n c h ∙ sym same ∙ sym (loop-range now n qt want range 0 [] c.cache kept)))

pub get-find :
    (now : ℕ) (n : Bytes) (qt : ℕ) (want : Bool) (c : MemRecursorCache) (m : Bytes) (u : ℕ)
    → IsUnique c.cache
    → IsUnique (get now n qt want c).2.cache
      × (find m u (get now n qt want c).2.cache ≡ find m u c.cache)
unfolding get
get-find now n qt want c m u h =
    let hit = c.cachecachevalid && pdns_iequals c.cachedqname n in
    let range = if hit then c.cachecache else equal_range n c.cache in
    let kept = if hit then c.cachedqname else n in
    rw (get_range-state now n qt want range kept c)
      (loop-find now n qt want range 0 [] c.cache m u h)

answers_in_range :
    (now : ℕ) (n : Bytes) (qt : ℕ) (want : Bool) (range : List ℕ) (kept : Bytes)
    (c : MemRecursorCache)
    → (get_range now n qt want range kept c).1 ≡ (
        if want
        then if length range == 0 then [] else (get_loop now n qt want range 0 [] c.cache).1
        else [])
unfolding get_range
answers_in_range now n qt want range kept c = ground arith

loop_empty :
    (now : ℕ) (n : Bytes) (qt : ℕ) (want : Bool) (range : List ℕ) (cache : List CacheEntry)
    → (if length range == 0 then [] else (get_loop now n qt want range 0 [] cache).1)
      ≡ (get_loop now n qt want range 0 [] cache).1
loop_empty now n qt want [] cache = unfold get_loop in refl
loop_empty now n qt want (t ∷ types) cache = ground arith

nothing_stored :
    (now : ℕ) (n : Bytes) (qt : ℕ) (cache : List CacheEntry)
    → find n qt cache ≡ none
    → fresh_answers now qt (records_at n qt cache) ≡ []
nothing_stored now n qt cache h =
    let empty : records_at n qt cache ≡ [] = unfold records_at in ground arith in
    rw empty (unfold fresh_answers in refl)

-- Asked for one type and given a set, `get` answers what is stored for the name and the type and is
-- fresh, in its order, and nothing where nothing is stored; without a set it answers nothing but the
-- time. The range that is kept is one of its name.
pub get-fresh_answers :
    (now : ℕ) (n : Bytes) (qt : ℕ) (want : Bool) (c : MemRecursorCache)
    → IsCached c
    → qt ≢ type_any
    → qt ≢ type_addr
    → (get now n qt want c).1
      ≡ (if want then fresh_answers now qt (records_at n qt c.cache) else [])
unfolding get
get-fresh_answers now n qt want c h a b =
    let hit = c.cachecachevalid && pdns_iequals c.cachedqname n in
    let kept = if hit then c.cachedqname else n in
    let range = equal_range n c.cache in
    let answers = answers_in_range now n qt want range kept c in
    let looped = loop_empty now n qt want range c.cache in
    rw (range_used n c h) (
      answers
      ∙ ap (λ (a : List Answer). if want then a else [])
          (looped ∙ elim (Bool-cases (contains qt range)) [
            | inl there ↦ loop_one now n qt want range c.cache a b there
            | inr absent ↦
                loop_none now n qt want range c.cache a b absent
                ∙ sym (nothing_stored now n qt c.cache (find-contains n qt c.cache absent))
          ]))
