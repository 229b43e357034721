-- ===== src/PacketCache/Purge.antt =====
-- What `purge` of pdns/pdns/packetcache.cc leaves.
use powerdns_improved_lua.Prelude.{
  ℕ, zero, suc, ◌-◌, ◌≡◌, refl, ap, inl, inr, Bool, true, false, not, ◌&&◌, ◌||◌, List, [], ◌∷◌,
  length, leb, if◌then◌else◌, none, arith, Bool-cases, drop, take,
}
use powerdns_improved_lua.Name.{Bytes, pdns_iequals}
use powerdns_improved_lua.Name.Compare.{iequals-length}
use powerdns_improved_lua.RecursorCache.Keys.{iequals_cong}
use powerdns_improved_lua.PacketCache.{
  Key, CacheEntry, PacketCache, same_key, find, ordered, pertains, skip_below, up_to_stop, doomed,
  is_among, erase_all, erase_name, last_is_dollar, purge_match, purge_loop, purge,
}
use powerdns_improved_lua.PacketCache.Entries.{same_key_sym}

-- The test for a suffix without regard to case, as Boost documents `iends_with`.
unfoldable pub ends_in : Bytes → Bytes → Bool
ends_in a b = leb (length b) (length a) && pdns_iequals (drop (length a - length b) a) b

-- Whether one of the matches is a suffix, with its "$", that the name pertains to.
abbrev pub suffix_matches : List Bytes → Bytes → Bool
suffix_matches [] name = false
suffix_matches (match ∷ matches) name =
    let suffix = take (length match - 1) match in
    (last_is_dollar match && (pdns_iequals name suffix || ends_in name (b'.' ∷ suffix)))
    || suffix_matches matches name

-- Whether one of the matches is the name, without regard to case.
abbrev pub name_matches : List Bytes → Bytes → Bool
name_matches [] name = false
name_matches (match ∷ matches) name =
    (not (last_is_dollar match) && pdns_iequals name match) || name_matches matches name

-- Names that are equal without regard to case pertain to the same suffixes.
iequals-drop :
    (n : ℕ) (a b : Bytes) → pdns_iequals a b ≡ true → pdns_iequals (drop n a) (drop n b) ≡ true
unfolding pdns_iequals
iequals-drop zero a b h = h
iequals-drop (suc n) [] [] h = refl
iequals-drop (suc n) [] (y ∷ ys) h = cc
iequals-drop (suc n) (x ∷ xs) [] h = cc
iequals-drop (suc n) (x ∷ xs) (y ∷ ys) h = iequals-drop n xs ys (ground arith)

ends_in_cong : (a b suffix : Bytes) → pdns_iequals a b ≡ true → ends_in a suffix ≡ ends_in b suffix
unfolding ends_in
ends_in_cong a b suffix h =
    let same = iequals-length a b h in
    let n = length a - length suffix in
    let there = iequals_cong (drop n a) (drop n b) suffix (iequals-drop n a b h) in
    let at_b : pdns_iequals (drop n b) suffix
        ≡ pdns_iequals (drop (length b - length suffix) b) suffix =
      ap (λ m. pdns_iequals (drop (m - length suffix) b) suffix) same in
    ground arith

find-erase_all :
    (k : Key) (gone entries : List CacheEntry)
    → ((e : CacheEntry) → same_key e.key k ≡ true → is_among e gone ≡ false)
    → find k (erase_all gone entries) ≡ find k entries
unfolding find erase_all
find-erase_all k gone [] h = refl
find-erase_all k gone (e ∷ entries) h = ground (arith, find-erase_all k gone entries h, h e)

find-erase_name :
    (k : Key) (name : Bytes) (entries : List CacheEntry)
    → find k (erase_name name entries)
      ≡ (if pdns_iequals k.qname name then none else find k entries)
unfolding find erase_name same_key
find-erase_name k name [] = ground arith
find-erase_name k name (e ∷ entries) =
    ground (arith, find-erase_name k name entries, iequals_cong e.key.qname k.qname name)

module _ (iends_with : Bytes → Bytes → Bool)
    (documented : (a b : Bytes) → iends_with a b ≡ ends_in a b) where
  -- What a suffix dooms pertains to it.
  same_key-pertains :
      (suffix : Bytes) (e x : CacheEntry)
      → same_key x.key e.key ≡ true
      → pertains iends_with suffix x ≡ pertains iends_with suffix e
  unfolding same_key pertains
  same_key-pertains suffix e x h = ground (
    arith,
    iequals_cong x.key.qname e.key.qname suffix,
    ends_in_cong x.key.qname e.key.qname (b'.' ∷ suffix),
    documented x.key.qname (b'.' ∷ suffix),
    documented e.key.qname (b'.' ∷ suffix),
  )

  is_among-up_to_stop :
      (suffix : Bytes) (e : CacheEntry) (entries : List CacheEntry)
      → is_among e (up_to_stop iends_with suffix entries) ≡ true
      → pertains iends_with suffix e ≡ true
  unfolding is_among up_to_stop
  is_among-up_to_stop suffix e [] h = ground arith
  is_among-up_to_stop suffix e (x ∷ entries) h =
      ground (arith, is_among-up_to_stop suffix e entries, same_key-pertains suffix e x)

  is_among-skip_below :
      (suffix suffix' : Bytes) (e : CacheEntry) (entries : List CacheEntry)
      → is_among e (up_to_stop iends_with suffix (skip_below suffix' entries)) ≡ true
      → pertains iends_with suffix e ≡ true
  is_among-skip_below suffix suffix' e entries h =
      is_among-up_to_stop suffix e (skip_below suffix' entries) h

  spares-doomed :
      (suffix : Bytes) (k : Key) (e : CacheEntry) (entries : List CacheEntry)
      → same_key e.key k ≡ true
      → pdns_iequals k.qname suffix || ends_in k.qname (b'.' ∷ suffix) ≡ false
      → is_among e (doomed iends_with suffix entries) ≡ false
  unfolding doomed
  spares-doomed suffix k e entries same h =
      let named : CacheEntry = record { key = k; ttd = 0; value = [] } in
      let back = same_key_sym k e.key in
      let spared : pertains iends_with suffix named ≡ false =
        unfold pertains in ground (arith, documented k.qname (b'.' ∷ suffix)) in
      let pertinent = same_key-pertains suffix e named in
      let among = is_among-skip_below suffix suffix e (ordered entries) in
      elim (Bool-cases
        (is_among e (up_to_stop iends_with suffix (skip_below suffix (ordered entries))))) [
          | inl yes_e ↦ absurd (let clash : ⊥ = ground (arith, among yes_e, pertinent) in clash)
          | inr no_e ↦ no_e
        ]

  find-purge_match :
      (k : Key) (match : Bytes) (count : ℕ) (entries : List CacheEntry)
      → suffix_matches (match ∷ []) k.qname ≡ false
      → find k (purge_match iends_with match (count, entries)).1
        ≡ (if name_matches (match ∷ []) k.qname then none else find k entries)
  unfolding purge_match
  find-purge_match k match count entries h =
      let suffix = take (length match - 1) match in
      elim (Bool-cases (last_is_dollar match)) [
        | inl dollar ↦
            let spared : pdns_iequals k.qname suffix || ends_in k.qname (b'.' ∷ suffix) ≡ false =
              ground arith in
            let kept =
              find-erase_all k (doomed iends_with suffix entries) entries
                (λ e same. spares-doomed suffix k e entries same spared) in
            ground arith
        | inr plain ↦ ground (arith, find-erase_name k match entries)
      ]

  find-purge_loop :
      (k : Key) (matches : List Bytes) (count : ℕ) (entries : List CacheEntry)
      → suffix_matches matches k.qname ≡ false
      → find k (purge_loop iends_with matches (count, entries)).1
        ≡ (if name_matches matches k.qname then none else find k entries)
  unfolding purge_loop
  find-purge_loop k [] count entries h = refl
  find-purge_loop k (match ∷ matches) count entries h =
      let (count', entries') = purge_match iends_with match (count, entries) in
      ground
        (arith, find-purge_match k match count entries, find-purge_loop k matches count' entries')

  -- After `purge` with matches none of which is a suffix that the name pertains to, where Boost's
  -- test for a suffix is as documented: the cache has no entry of the name where a match is the
  -- name, and finds what it found before where none is.
  pub find-purge :
      (k : Key) (command : Bytes) (matches : List Bytes) (c : PacketCache)
      → suffix_matches matches k.qname ≡ false
      → find k (purge iends_with (command ∷ matches) c).1.entries
        ≡ (if name_matches matches k.qname then none else find k c.entries)
  unfolding purge
  find-purge k command matches c h = find-purge_loop k matches 0 c.entries h
