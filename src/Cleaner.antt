-- ===== src/Cleaner.antt =====
-- `pruneCollection` of pdns/pdns/cachecleaner.hh, which keeps the caches of the recursor small. A
-- cache is its sequence, the oldest entry first; `ttd` is the method getTTD of its entries.
pub mod Prune
use powerdns_improved_lua.Prelude.{
  ℕ, suc, zero, ◌+◌, ◌-◌, ◌*◌, ◌/◌, ◌%◌, ◌^◌, Bool, true, false, not, ◌&&◌, List, [], ◌∷◌, length,
  drop, ltb, leb, ◌==◌, if◌then◌else◌,
}

module _ {T : Type 0} (ttd : T → ℕ) (now : ℕ) where
  -- The loop over the first `look_at` entries: how many were erased, and the sequence it leaves.
  unfoldable pub scan : ℕ → ℕ → ℕ → List T → ℕ × List T
  scan zero to_trim erased entries = (erased, entries)
  scan (suc look_at) to_trim erased [] = (erased, [])
  scan (suc look_at) to_trim erased (x ∷ entries) =
      let expired = ltb (ttd x) now in
      let erased' = if expired then erased + 1 else erased in
      let further = scan look_at to_trim erased' entries in
      let (count, left) =
        if not (to_trim == 0) && ltb to_trim erased' then (erased', entries) else further in
      (count, (if expired then left else x ∷ left))

  -- How many entries are too many. Sizes are unsigned int.
  unfoldable pub excess : ℕ → List T → ℕ
  excess max_cached entries =
      let cache_size = length entries % 2 ^ 32 in
      if not (max_cached == 0) && ltb max_cached cache_size then cache_size - max_cached else 0

  unfoldable pub prune_collection : ℕ → ℕ → List T → List T
  unfolding scan excess
  prune_collection max_cached scan_fraction entries =
      let to_trim = excess max_cached entries in
      let look_at =
        if not (to_trim == 0)
        then 5 * to_trim % 2 ^ 32
        else length entries % 2 ^ 32 / scan_fraction in
      let (erased, left) = scan look_at to_trim 0 entries in
      if leb to_trim erased then left else drop (to_trim - erased) left
