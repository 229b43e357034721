-- ===== src/PacketCache/Replies.antt =====
-- A reply that the authoritative server's packet cache (pdns/pdns/packetcache.cc) took, asked for.
use powerdns_improved_lua.Prelude.{
  ℕ, ◌+◌, ◌%◌, ◌^◌, ◌<◌, ◌≤◌, ◌≡◌, sym, ap, ◌∙◌, inl, inr, Bool, true, false, ◌&&◌, length, ◌==◌,
  if◌then◌else◌, some, arith, Bool-cases,
}
use powerdns_improved_lua.Prelude.Int.{ℤ, pos, negsuc, ltb_ℤ}
use powerdns_improved_lua.Name.{Bytes, pdns_iequals}
use powerdns_improved_lua.PacketCache.{
  Key, Settings, PacketCache, Question, ◌==ℤ◌, same_key, cleanup, count_op, need_ttls,
  get_entry_locked, insert_entry, insert, get, to_unsigned, packetcache,
}
use powerdns_improved_lua.PacketCache.Entries.{made_key, get_entry_locked-insert_entry}
use powerdns_improved_lua.PacketCache.Cleanup.{get_entry_locked-count_op}

-- The time to live that the cache gives to a reply to a question.
abbrev pub ttl_of : PacketCache → Question → ℤ
ttl_of c q = if c.do_recursion && q.rd then c.recursivettl else c.ttl

abbrev pub key_of : PacketCache → Question → Key
key_of c q = made_key q.qdomain q.qtype packetcache (c.do_recursion && q.rd)

count_op-settings :
    (s : Settings) (now : ℕ) (c : PacketCache)
    → ((count_op s now c).ttl ≡ c.ttl)
      × ((count_op s now c).recursivettl ≡ c.recursivettl)
      × ((count_op s now c).do_recursion ≡ c.do_recursion)
unfolding count_op cleanup
count_op-settings s now c = elim (Bool-cases (c.ops % 300000 == 0)) [
  | inl h ↦ ground arith
  | inr h ↦ ground arith
]

need_ttls-set : (s : Settings) (c : PacketCache) → ltb_ℤ c.ttl (pos 0) ≡ false → need_ttls s c ≡ c
unfolding need_ttls
need_ttls-set s c h = ground arith

to_unsigned-pos : (n : ℕ) → n < 2 ^ 32 → to_unsigned (pos n) ≡ n
unfolding to_unsigned
to_unsigned-pos n h = omega arith

same_key-questions :
    (q p : Question) (merits : Bool)
    → pdns_iequals q.qdomain p.qdomain ≡ true
    → q.qtype ≡ p.qtype
    → same_key
        (made_key q.qdomain q.qtype packetcache merits)
        (made_key p.qdomain p.qtype packetcache merits)
      ≡ true
unfolding same_key
same_key-questions q p merits names types = ground arith

-- The reply that the entry for a question holds is what `get` gives.
get-entry :
    (s : Settings) (now : ℕ) (p : Question) (c c' : PacketCache) (value : Bytes)
    → count_op s now (need_ttls s c) ≡ c'
    → (ttl_of c' p ==ℤ pos 0) ≡ false
    → p.qdcount ≡ 1
    → 12 ≤ length value
    → get_entry_locked now (key_of c' p) c' ≡ some value
    → (get s now true p c).0 ≡ some value
unfolding get
get-entry s now p c c' value counted lives one long there = ground arith

-- The insertion that `insert` makes of a reply.
abbrev pub inserted_reply : Settings → ℕ → Question → Bytes → ℕ → PacketCache → PacketCache
inserted_reply s now q reply n c =
    insert_entry s now true q.qdomain q.qtype packetcache reply n (negsuc 0)
      (c.do_recursion && q.rd) c

insert-entry :
    (s : Settings) (now n : ℕ) (q : Question) (reply : Bytes) (c : PacketCache)
    → ltb_ℤ c.ttl (pos 0) ≡ false
    → ttl_of c q ≡ pos n
    → n < 2 ^ 32
    → q.qdcount ≡ 1
    → q.qclass ≡ 1
    → insert s now true q reply c ≡ inserted_reply s now q reply n c
unfolding insert
insert-entry s now n q reply c set lives small one internet =
    let same = need_ttls-set s c set in
    let amount : to_unsigned (ttl_of c q) ≡ n = ap to_unsigned lives ∙ to_unsigned-pos n small in
    rw (same, one, internet, amount)

insert_entry-settings :
    (s : Settings) (now n : ℕ) (q : Question) (reply : Bytes) (c : PacketCache)
    → ((inserted_reply s now q reply n c).ttl ≡ c.ttl)
      × ((inserted_reply s now q reply n c).recursivettl ≡ c.recursivettl)
      × ((inserted_reply s now q reply n c).do_recursion ≡ c.do_recursion)
unfolding insert_entry
insert_entry-settings s now n q reply c =
    let (a, b, d) = count_op-settings s now c in
    elim (Bool-cases (n == 0)) [ inl h ↦ ground arith | inr h ↦ ground arith ]

inserted_reply-found :
    (s : Settings) (now later n : ℕ) (q p : Question) (reply : Bytes) (c : PacketCache)
    → 0 < n
    → later < now + n
    → pdns_iequals q.qdomain p.qdomain ≡ true
    → q.qtype ≡ p.qtype
    → q.rd ≡ p.rd
    → get_entry_locked later (key_of c p) (inserted_reply s now q reply n c) ≡ some reply
inserted_reply-found s now later n q p reply c above live names types wish =
    let merits = c.do_recursion && q.rd in
    let found =
      get_entry_locked-insert_entry s now later q.qdomain q.qtype packetcache reply n (negsuc 0)
        merits c (key_of c p) (omega arith) in
    let same = same_key-questions q p merits names types in
    let key : key_of c p ≡ made_key p.qdomain p.qtype packetcache merits =
      ap (λ rd. made_key p.qdomain p.qtype packetcache (c.do_recursion && rd)) (sym wish) in
    let same' : same_key (made_key q.qdomain q.qtype packetcache merits) (key_of c p) ≡ true =
      ap (same_key (made_key q.qdomain q.qtype packetcache merits)) key ∙ same in
    ground arith

-- A reply that was inserted, with the lock, where the cache has its settings, the reply's time to
-- live n is above 0 and the question one of the Internet: until n seconds later, `get` gives it for a
-- question of the same name without regard to case, the same type and the same wish for recursion,
-- where it gets the lock and the reply is of 12 bytes at least.
pub get-insert :
    (s : Settings) (now later n : ℕ) (q p : Question) (reply : Bytes) (c : PacketCache)
    → ltb_ℤ c.ttl (pos 0) ≡ false
    → ttl_of c q ≡ pos n
    → 0 < n
    → n < 2 ^ 32
    → later < now + n
    → q.qdcount ≡ 1
    → q.qclass ≡ 1
    → p.qdcount ≡ 1
    → pdns_iequals q.qdomain p.qdomain ≡ true
    → q.qtype ≡ p.qtype
    → q.rd ≡ p.rd
    → 12 ≤ length reply
    → (get s later true p (insert s now true q reply c)).0 ≡ some reply
get-insert s now later n q p reply c set lives above small live one internet one' names types wish
      long =
    let i = inserted_reply s now q reply n c in
    let inserted = insert-entry s now n q reply c set lives small one internet in
    let (a, b, d) = insert_entry-settings s now n q reply c in
    let (a', b', d') = count_op-settings s later i in
    let merits = c.do_recursion && q.rd in
    let there = inserted_reply-found s now later n q p reply c above live names types wish in
    let still = get_entry_locked-count_op s later (key_of c p) i reply there in
    let set' : ltb_ℤ i.ttl (pos 0) ≡ false = ap (λ t. ltb_ℤ t (pos 0)) a ∙ set in
    let counted = ap (count_op s later) (need_ttls-set s i set') in
    let key : key_of (count_op s later i) p ≡ key_of c p =
      ap (λ r. made_key p.qdomain p.qtype packetcache (r && p.rd)) (d' ∙ d) in
    let time : ttl_of (count_op s later i) p ≡ pos n = ground arith in
    let lives' : (ttl_of (count_op s later i) p ==ℤ pos 0) ≡ false =
      ap (λ t. t ==ℤ pos 0) time ∙ ground arith in
    ap (λ d. (get s later true p d).0) inserted
    ∙ get-entry s later p i (count_op s later i) reply counted lives' one' long
        (ap (λ k. get_entry_locked later k (count_op s later i)) key ∙ still)
