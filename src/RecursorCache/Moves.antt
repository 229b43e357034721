-- ===== src/RecursorCache/Moves.antt =====
-- Entries that moveCacheItemToFrontOrBack of pdns/pdns/cachecleaner.hh takes out and puts in again.
use powerdns_improved_lua.Prelude.{
  ℕ, ◌≡◌, refl, sym, ap, ◌∙◌, inl, inr, Bool, true, false, List, [], ◌∷◌, ◌++◌, if◌then◌else◌, none,
  some, arith, Bool-cases, Option-cases,
}
use powerdns_improved_lua.Name.{Bytes}
use powerdns_improved_lua.RecursorCache.{CacheEntry, has_key, find, erase, move_to}
use powerdns_improved_lua.RecursorCache.Keys.{
  same_key, has_key-same_key, find-has_key, IsUnique, find-own, find-append_other, find-append_none,
  append-IsUnique, find-erase_other, find-erase_self, erase-Kept, Kept-IsUnique, find_same,
}

pub move_to-none :
    (front : Bool) (n : Bytes) (t : ℕ) (cache : List CacheEntry)
    → find n t cache ≡ none
    → move_to front n t cache ≡ cache
unfolding move_to
move_to-none front n t cache h = ground arith

pub move_to-some :
    (front : Bool) (n : Bytes) (t : ℕ) (cache : List CacheEntry) (e : CacheEntry)
    → find n t cache ≡ some e
    → move_to front n t cache ≡ (if front then e ∷ erase n t cache else erase n t cache ++ (e ∷ []))
unfolding move_to
move_to-some front n t cache e h = ground arith

find_head :
    (m : Bytes) (u : ℕ) (e : CacheEntry) (cache : List CacheEntry)
    → find m u (e ∷ cache) ≡ (if has_key m u e then some e else find m u cache)
unfolding find
find_head m u e cache = refl

-- An entry that is put in again, in front or at the back.
find-put_back :
    (front : Bool) (m n : Bytes) (u t : ℕ) (cache : List CacheEntry) (e : CacheEntry)
    → IsUnique cache
    → find n t cache ≡ some e
    → find m u (if front then e ∷ erase n t cache else erase n t cache ++ (e ∷ [])) ≡ find m u cache
find-put_back front m n u t cache e h found =
    let own = has_key-same_key n m t u e (find-has_key n t cache found) in
    elim (Bool-cases (same_key n t m u)) [
      | inl same ↦
          let here = sym (find_same n m t u cache same) ∙ found in
          let gone = sym (find_same n m t u (erase n t cache) same) ∙ find-erase_self n t cache h in
          both front here gone (own ∙ same)
      | inr other ↦
          let left = find-erase_other m n u t cache other in other_key front left (own ∙ other)
    ]
  where
    both :
        (front : Bool)
        → find m u cache ≡ some e
        → find m u (erase n t cache) ≡ none
        → has_key m u e ≡ true
        → find m u (if front then e ∷ erase n t cache else erase n t cache ++ (e ∷ []))
          ≡ find m u cache
    both true here gone k = find_head m u e (erase n t cache) ∙ rw k (sym here)
    both false here gone k =
        find-append_none m u (erase n t cache) (e ∷ []) gone ∙ find_head m u e [] ∙ rw k (sym here)

    other_key :
        (front : Bool)
        → find m u (erase n t cache) ≡ find m u cache
        → has_key m u e ≡ false
        → find m u (if front then e ∷ erase n t cache else erase n t cache ++ (e ∷ []))
          ≡ find m u cache
    other_key true left k = find_head m u e (erase n t cache) ∙ rw k left
    other_key false left k = find-append_other m u (erase n t cache) e k ∙ left

-- Moving an entry changes what is found nowhere.
pub find-move_to :
    (front : Bool) (m n : Bytes) (u t : ℕ) (cache : List CacheEntry)
    → IsUnique cache
    → find m u (move_to front n t cache) ≡ find m u cache
find-move_to front m n u t cache h = elim (Option-cases (find n t cache)) [
  | inl absent ↦ ap (find m u) (move_to-none front n t cache absent)
  | inr (e, found) ↦
      ap (find m u) (move_to-some front n t cache e found)
      ∙ find-put_back front m n u t cache e h found
]

put_back-IsUnique :
    (front : Bool) (n : Bytes) (t : ℕ) (cache : List CacheEntry) (e : CacheEntry)
    → IsUnique cache
    → find n t cache ≡ some e
    → IsUnique (if front then e ∷ erase n t cache else erase n t cache ++ (e ∷ []))
put_back-IsUnique front n t cache e h found =
    let own = find-has_key n t cache found in
    let gone = sym (find-own n t e (erase n t cache) own) ∙ find-erase_self n t cache h in
    let rest = Kept-IsUnique (erase-Kept n t cache) h in place front gone rest
  where
    place :
        (front : Bool)
        → find e.qname e.qtype (erase n t cache) ≡ none
        → IsUnique (erase n t cache)
        → IsUnique (if front then e ∷ erase n t cache else erase n t cache ++ (e ∷ []))
    place true gone rest = (gone, rest)
    place false gone rest = append-IsUnique (erase n t cache) e gone rest

pub move_to-IsUnique :
    (front : Bool) (n : Bytes) (t : ℕ) (cache : List CacheEntry)
    → IsUnique cache
    → IsUnique (move_to front n t cache)
move_to-IsUnique front n t cache h = elim (Option-cases (find n t cache)) [
  | inl absent ↦ rw (move_to-none front n t cache absent) h
  | inr (e, found) ↦
      rw (move_to-some front n t cache e found) (put_back-IsUnique front n t cache e h found)
]
