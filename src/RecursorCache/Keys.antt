-- ===== src/RecursorCache/Keys.antt =====
-- Keys in the container of pdns/pdns/recursor_cache.hh: a name without regard to case, and a type.
use powerdns_improved_lua.Prelude.{
  ℕ, ◌≡◌, refl, sym, ◌∙◌, inl, inr, Bool, true, false, ◌&&◌, List, [], ◌∷◌, ◌++◌, ◌==◌,
  if◌then◌else◌, none, some, arith, Bool-cases,
}
use powerdns_improved_lua.Name.{Bytes, pdns_iequals}
use powerdns_improved_lua.Name.Compare.{iequals_iff}
use powerdns_improved_lua.Cleaner.Prune.{Kept, Kept-same, end, keep, skip}
use powerdns_improved_lua.RecursorCache.{CacheEntry, has_key, find, erase, store}

pub iequals_refl : (a : Bytes) → pdns_iequals a a ≡ true
iequals_refl a = (iequals_iff a a).1 refl

-- Equal names are equal to the same names.
pub iequals_cong : (a b c : Bytes) → pdns_iequals a b ≡ true → pdns_iequals a c ≡ pdns_iequals b c
iequals_cong a b c h =
    let e = (iequals_iff a b).0 h in
    elim (Bool-cases (pdns_iequals a c)) [
      | inl yes_a ↦ yes_a ∙ sym ((iequals_iff b c).1 (sym e ∙ (iequals_iff a c).0 yes_a))
      | inr no_a ↦ elim (Bool-cases (pdns_iequals b c)) [
        | inl yes_b ↦ (iequals_iff a c).1 (e ∙ (iequals_iff b c).0 yes_b) ∙ sym yes_b
        | inr no_b ↦ no_a ∙ sym no_b
      ]
    ]

pub iequals_sym : (a b : Bytes) → pdns_iequals a b ≡ pdns_iequals b a
iequals_sym a b = elim (Bool-cases (pdns_iequals a b)) [
  | inl h ↦ h ∙ sym ((iequals_iff b a).1 (sym ((iequals_iff a b).0 h)))
  | inr h ↦ elim (Bool-cases (pdns_iequals b a)) [
    | inl k ↦ (iequals_iff a b).1 (sym ((iequals_iff b a).0 k)) ∙ sym k
    | inr k ↦ h ∙ sym k
  ]
]

pub iequals_cong_right :
    (a b c : Bytes) → pdns_iequals a b ≡ true → pdns_iequals c a ≡ pdns_iequals c b
iequals_cong_right a b c h = iequals_sym c a ∙ iequals_cong a b c h ∙ iequals_sym b c

-- Two keys are the same.
abbrev pub same_key : Bytes → ℕ → Bytes → ℕ → Bool
same_key n t m u = pdns_iequals n m && t == u

pub has_key-same_key :
    (n m : Bytes) (t u : ℕ) (e : CacheEntry)
    → has_key n t e ≡ true
    → has_key m u e ≡ same_key n t m u
unfolding has_key
has_key-same_key n m t u e h = ground (arith, iequals_cong e.qname n m)

pub has_key_cong :
    (n m : Bytes) (t u : ℕ) (e : CacheEntry)
    → same_key n t m u ≡ true
    → has_key n t e ≡ has_key m u e
unfolding has_key
has_key_cong n m t u e h = ground (arith, iequals_cong_right n m e.qname)

has_key_sym : (e x : CacheEntry) → has_key e.qname e.qtype x ≡ has_key x.qname x.qtype e
unfolding has_key
has_key_sym e x = ground (arith, iequals_sym e.qname x.qname)

pub find_cong :
    (n m : Bytes) (t : ℕ) (cache : List CacheEntry)
    → pdns_iequals n m ≡ true
    → find n t cache ≡ find m t cache
unfolding find has_key
find_cong n m t [] h = refl
find_cong n m t (e ∷ cache) h =
    ground (arith, find_cong n m t cache h, iequals_cong_right n m e.qname h)

pub find-has_key :
    (n : Bytes) (t : ℕ) (cache : List CacheEntry) {e : CacheEntry}
    → find n t cache ≡ some e
    → has_key n t e ≡ true
unfolding find
find-has_key n t [] h = cc
find-has_key n t (x ∷ cache) {e} h = ground (arith, find-has_key n t cache {e = e})

-- No two entries have the same key.
abbrev pub IsUnique : List CacheEntry → Type 0
IsUnique [] = Unit
IsUnique (e ∷ cache) = (find e.qname e.qtype cache ≡ none) × IsUnique cache

own_key : (e : CacheEntry) → has_key e.qname e.qtype e ≡ true
unfolding has_key
own_key e = ground (arith, iequals_refl e.qname)

pub find-own :
    (n : Bytes) (t : ℕ) (e : CacheEntry) (cache : List CacheEntry)
    → has_key n t e ≡ true
    → find n t cache ≡ find e.qname e.qtype cache
unfolding has_key
find-own n t e cache h = ground (arith, find_cong e.qname n t cache)

pub find-store_new :
    (m : Bytes) (u : ℕ) (new : CacheEntry) (cache : List CacheEntry)
    → find m u cache ≡ none
    → find m u (store new cache) ≡ none
unfolding find store
find-store_new m u new [] h = refl
find-store_new m u new (e ∷ cache) h = ground (
  arith,
  find-store_new m u new cache,
  has_key-same_key new.qname m new.qtype u e,
  has_key-same_key new.qname m new.qtype u new (own_key new),
)

-- What a store leaves: the new entry at its key, and the old ones elsewhere.
pub find-store :
    (m : Bytes) (u : ℕ) (new old : CacheEntry) (cache : List CacheEntry)
    → find new.qname new.qtype cache ≡ some old
    → find m u (store new cache)
      ≡ (if same_key new.qname new.qtype m u then some new else find m u cache)
unfolding find store
find-store m u new old [] h = cc
find-store m u new old (e ∷ cache) h = ground (
  arith,
  find-store m u new old cache,
  has_key_cong new.qname m new.qtype u e,
  has_key-same_key new.qname m new.qtype u e,
  has_key-same_key new.qname m new.qtype u new (own_key new),
)

pub store-IsUnique :
    (new : CacheEntry) (cache : List CacheEntry) → IsUnique cache → IsUnique (store new cache)
unfolding store
store-IsUnique new [] h = tt
store-IsUnique new (e ∷ cache) (h, hs) = elim (Bool-cases (has_key new.qname new.qtype e)) [
  | inl hit ↦ rw hit (find-own new.qname new.qtype e cache hit ∙ h, hs)
  | inr miss ↦ rw miss (find-store_new e.qname e.qtype new cache h, store-IsUnique new cache hs)
]

pub find-append_some :
    (m : Bytes) (u : ℕ) (cache rest : List CacheEntry) {x : CacheEntry}
    → find m u cache ≡ some x
    → find m u (cache ++ rest) ≡ some x
unfolding find
find-append_some m u [] rest h = cc
find-append_some m u (e ∷ cache) rest {x} h =
    ground (arith, find-append_some m u cache rest {x = x})

pub find-append_other :
    (m : Bytes) (u : ℕ) (cache : List CacheEntry) (e : CacheEntry)
    → has_key m u e ≡ false
    → find m u (cache ++ (e ∷ [])) ≡ find m u cache
unfolding find
find-append_other m u [] e h = ground arith
find-append_other m u (x ∷ cache) e h = ground (arith, find-append_other m u cache e h)

pub find-append_none :
    (m : Bytes) (u : ℕ) (cache rest : List CacheEntry)
    → find m u cache ≡ none
    → find m u (cache ++ rest) ≡ find m u rest
unfolding find
find-append_none m u [] rest h = refl
find-append_none m u (e ∷ cache) rest h = ground (arith, find-append_none m u cache rest)

find_tail_none :
    (e x : CacheEntry) (cache : List CacheEntry)
    → find e.qname e.qtype (x ∷ cache) ≡ none
    → (has_key e.qname e.qtype x ≡ false) × (find e.qname e.qtype cache ≡ none)
unfolding find
find_tail_none e x cache h = ground arith

find_one_none :
    (x e : CacheEntry) → has_key e.qname e.qtype x ≡ false → find x.qname x.qtype (e ∷ []) ≡ none
unfolding find
find_one_none x e h = rw (sym (has_key_sym e x) ∙ h) refl

pub append-IsUnique :
    (cache : List CacheEntry) (e : CacheEntry)
    → find e.qname e.qtype cache ≡ none
    → IsUnique cache
    → IsUnique (cache ++ (e ∷ []))
append-IsUnique [] e h u = (unfold find in refl, tt)
append-IsUnique (x ∷ cache) e h (k, ks) =
    let apart = find_tail_none e x cache h in
    (
      find-append_none x.qname x.qtype cache (e ∷ []) k ∙ find_one_none x e apart.0,
      append-IsUnique cache e apart.1 ks,
    )

pub find-erase_other :
    (m n : Bytes) (u t : ℕ) (cache : List CacheEntry)
    → same_key n t m u ≡ false
    → find m u (erase n t cache) ≡ find m u cache
unfolding find erase
find-erase_other m n u t [] h = refl
find-erase_other m n u t (e ∷ cache) h =
    ground (arith, find-erase_other m n u t cache h, has_key-same_key n m t u e)

pub find-erase_self :
    (n : Bytes) (t : ℕ) (cache : List CacheEntry)
    → IsUnique cache
    → find n t (erase n t cache) ≡ none
unfolding find erase
find-erase_self n t [] h = refl
find-erase_self n t (e ∷ cache) (h, hs) =
    ground (arith, find-erase_self n t cache hs, find-own n t e cache)

pub erase-Kept : (n : Bytes) (t : ℕ) (cache : List CacheEntry) → Kept (erase n t cache) cache
unfolding erase
erase-Kept n t [] = end
erase-Kept n t (e ∷ cache) =
    let gone = skip e (Kept-same cache) in let kept = keep e (erase-Kept n t cache) in ground arith

pub find-Kept :
    (m : Bytes) (u : ℕ) {xs ys : List CacheEntry}
    → Kept xs ys
    → find m u ys ≡ none
    → find m u xs ≡ none
unfolding find
find-Kept m u end h = h
find-Kept m u (keep x k) h = ground (arith, find-Kept m u k)
find-Kept m u (skip x k) h = ground (arith, find-Kept m u k)

pub Kept-IsUnique : {xs ys : List CacheEntry} → Kept xs ys → IsUnique ys → IsUnique xs
Kept-IsUnique end h = tt
Kept-IsUnique (keep x k) (h, hs) = (find-Kept x.qname x.qtype k h, Kept-IsUnique k hs)
Kept-IsUnique (skip x k) (h, hs) = Kept-IsUnique k hs

pub find_same :
    (n m : Bytes) (t u : ℕ) (cache : List CacheEntry)
    → same_key n t m u ≡ true
    → find n t cache ≡ find m u cache
unfolding find
find_same n m t u [] h = refl
find_same n m t u (e ∷ cache) h =
    ground (arith, find_same n m t u cache h, has_key_cong n m t u e h)
