-- ===== src/Cleaner/Prune.antt =====
-- What pruning a cache leaves: pdns/pdns/cachecleaner.hh.
use powerdns_improved_lua.Prelude.{
  ℕ, suc, zero, ◌+◌, ◌-◌, ◌*◌, ◌/◌, ◌%◌, ◌^◌, ◌≤◌, ◌<◌, ◌≡◌, ◌≢◌, refl, Bool, true, false, not,
  List, [], ◌∷◌, length, drop, ltb, leb, ◌==◌, if◌then◌else◌, arith, ◌⊎◌,
}
use powerdns_improved_lua.Cleaner.{scan, excess, prune_collection}

length-drop : {T : Type 0} (n : ℕ) (xs : List T) → length (drop n xs) ≡ length xs - n
length-drop zero xs = omega arith
length-drop (suc n) [] = omega arith
length-drop (suc n) (x ∷ xs) = omega (arith, length-drop n xs)

-- The entries of a list that stand in another, in the same order.
pub data Kept {T : Type 0} : List T → List T → Type 0 where
  end : Kept [] []
  keep : (x : T) {xs ys : List T} → Kept xs ys → Kept (x ∷ xs) (x ∷ ys)
  skip : (x : T) {xs ys : List T} → Kept xs ys → Kept xs (x ∷ ys)

pub Kept-same : {T : Type 0} (xs : List T) → Kept xs xs
Kept-same [] = end
Kept-same (x ∷ xs) = keep x (Kept-same xs)

pub Kept-drop : {T : Type 0} (n : ℕ) {xs ys : List T} → Kept xs ys → Kept (drop n xs) ys
Kept-drop zero k = k
Kept-drop (suc n) end = end
Kept-drop (suc n) (keep x k) = skip x (Kept-drop n k)
Kept-drop (suc n) (skip x k) = skip x (Kept-drop (suc n) k)

Kept-if :
    {T : Type 0} (b : Bool) {xs ys zs : List T}
    → Kept xs zs
    → Kept ys zs
    → Kept (if b then xs else ys) zs
Kept-if true h k = h
Kept-if false h k = k

module _ {T : Type 0} (ttd : T → ℕ) (now : ℕ) where
  -- The entries whose time is not past.
  abbrev pub live : List T → List T
  live [] = []
  live (x ∷ xs) = let rest = live xs in if ltb (ttd x) now then rest else x ∷ rest

  scan-length :
      (look_at to_trim erased : ℕ) (xs : List T)
      → (scan ttd now look_at to_trim erased xs).0
          + length (scan ttd now look_at to_trim erased xs).1
        ≡ erased + length xs
  unfolding scan
  scan-length zero to_trim erased xs = refl
  scan-length (suc n) to_trim erased [] = refl
  scan-length (suc n) to_trim erased (x ∷ xs) =
      ground (arith, scan-length n to_trim erased xs, scan-length n to_trim (erased + 1) xs)

  scan-Kept :
      (look_at to_trim erased : ℕ) (xs : List T)
      → Kept (scan ttd now look_at to_trim erased xs).1 xs
  unfolding scan
  scan-Kept zero to_trim erased xs = Kept-same xs
  scan-Kept (suc n) to_trim erased [] = end
  scan-Kept (suc n) to_trim erased (x ∷ xs) =
      let stop = Kept-same xs in
      let dead = scan-Kept n to_trim (erased + 1) xs in
      let alive = scan-Kept n to_trim erased xs in
      let skipped = skip x stop in
      let erased_first = skip x dead in
      let kept_first = keep x alive in let kept_last = keep x stop in ground arith

  scan-live :
      (look_at to_trim erased : ℕ) (xs : List T)
      → live (scan ttd now look_at to_trim erased xs).1 ≡ live xs
  unfolding scan
  scan-live zero to_trim erased xs = refl
  scan-live (suc n) to_trim erased [] = refl
  scan-live (suc n) to_trim erased (x ∷ xs) =
      ground (arith, scan-live n to_trim erased xs, scan-live n to_trim (erased + 1) xs)

  -- After pruning, a cache with a bound has at most that many entries. Its size fits an unsigned
  -- int.
  pub length-prune_collection :
      (max_cached scan_fraction : ℕ) (xs : List T)
      → max_cached ≢ 0
      → length xs < 2 ^ 32
      → length (prune_collection ttd now max_cached scan_fraction xs) ≤ max_cached
  unfolding prune_collection excess
  length-prune_collection max_cached scan_fraction xs h small =
      let to_trim = excess ttd now max_cached xs in
      let look_at =
        if not (to_trim == 0) then 5 * to_trim % 2 ^ 32 else length xs % 2 ^ 32 / scan_fraction in
      let r = scan ttd now look_at to_trim 0 xs in
      ground (arith, scan-length look_at to_trim 0 xs, length-drop (to_trim - r.0) r.1)

  -- What pruning leaves are entries of the cache, in their order.
  pub prune_collection-Kept :
      (max_cached scan_fraction : ℕ) (xs : List T)
      → Kept (prune_collection ttd now max_cached scan_fraction xs) xs
  unfolding prune_collection
  prune_collection-Kept max_cached scan_fraction xs =
      let to_trim = excess ttd now max_cached xs in
      let look_at =
        if not (to_trim == 0) then 5 * to_trim % 2 ^ 32 else length xs % 2 ^ 32 / scan_fraction in
      let r = scan ttd now look_at to_trim 0 xs in
      let all = scan-Kept look_at to_trim 0 xs in
      let fewer = Kept-drop (to_trim - r.0) all in Kept-if (leb to_trim r.0) all fewer

  -- While the cache is within its bound, or has none, pruning takes out only entries whose time is
  -- past.
  pub live-prune_collection :
      (max_cached scan_fraction : ℕ) (xs : List T)
      → (max_cached ≡ 0) ⊎ (length xs ≤ max_cached)
      → live (prune_collection ttd now max_cached scan_fraction xs) ≡ live xs
  unfolding prune_collection
  live-prune_collection max_cached scan_fraction xs h =
      let look_at = length xs % 2 ^ 32 / scan_fraction in
      let room : excess ttd now max_cached xs ≡ 0 = unfold excess in ground arith in
      let at_once : leb 0 (scan ttd now look_at 0 0 xs).0 ≡ true = ground arith in
      rw (room, at_once) (scan-live look_at 0 0 xs)
