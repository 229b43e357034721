-- ===== src/PacketCache/Cleanup.antt =====
-- What `cleanup` of pdns/pdns/packetcache.cc leaves, and answers that are cached across it.
use powerdns_improved_lua.Prelude.{
  ℕ, ◌+◌, ◌%◌, ◌^◌, ◌<◌, ◌≤◌, ◌≡◌, inl, inr, List, [], ◌∷◌, some, arith, Option-cases,
}
use powerdns_improved_lua.Name.{Bytes}
use powerdns_improved_lua.PacketCache.{
  Key, CacheEntry, Settings, PacketCache, find, clean_loop, cleanup, count_op, get_entry_locked,
}

find-clean_loop :
    (k : Key) (e : CacheEntry) (now to_trim look_at looked erased : ℕ) (entries : List CacheEntry)
    → find k entries ≡ some e
    → now ≤ e.ttd
    → find k (clean_loop now to_trim look_at looked erased entries) ≡ some e
unfolding find clean_loop
find-clean_loop k e now to_trim look_at looked erased [] h live = cc
find-clean_loop k e now to_trim look_at looked erased (x ∷ entries) h live = ground (
  arith,
  find-clean_loop k e now to_trim look_at (looked + 1) (erased + 1) entries,
  find-clean_loop k e now to_trim look_at (looked + 1) erased entries,
)

find-cleanup :
    (k : Key) (e : CacheEntry) (s : Settings) (now : ℕ) (c : PacketCache)
    → find k c.entries ≡ some e
    → now ≤ e.ttd
    → find k (cleanup s now c).entries ≡ some e
unfolding cleanup
find-cleanup k e s now c h live = find-clean_loop k e now _ _ 0 0 c.entries h live

find-count_op :
    (k : Key) (e : CacheEntry) (s : Settings) (now : ℕ) (c : PacketCache)
    → find k c.entries ≡ some e
    → now ≤ e.ttd
    → find k (count_op s now c).entries ≡ some e
unfolding count_op
find-count_op k e s now c h live =
    ground (arith, find-cleanup k e s now (record c { ops = (c.ops + 1) % 2 ^ 32 }))

found_live :
    (now : ℕ) (k : Key) (c : PacketCache) (value : Bytes)
    → get_entry_locked now k c ≡ some value
    → (e : CacheEntry) × (find k c.entries ≡ some e) × (now < e.ttd) × (e.value ≡ value)
unfolding get_entry_locked
found_live now k c value h = elim (Option-cases (find k c.entries)) [
  | inl absent ↦ absurd (let impossible : ⊥ = ground arith in impossible)
  | inr (e, there) ↦ (e, there, ground arith, ground arith)
]

-- What a lookup finds it finds across a `cleanup` as well.
pub get_entry_locked-count_op :
    (s : Settings) (now : ℕ) (k : Key) (c : PacketCache) (value : Bytes)
    → get_entry_locked now k c ≡ some value
    → get_entry_locked now k (count_op s now c) ≡ some value
get_entry_locked-count_op s now k c value h =
    let (e, there, live, same) = found_live now k c value h in
    let still = find-count_op k e s now c there (omega arith) in
    unfold get_entry_locked in ground arith
