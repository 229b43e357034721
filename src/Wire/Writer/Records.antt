-- ===== src/Wire/Writer/Records.antt =====
-- Records in DNSPacketWriter: what commit, startRecord and rollback of pdns/pdns/dnswriter.cc do to
-- the packet and the counters in its header.
use powerdns_improved_lua.Prelude.{
  ℕ, zero, suc, ◌+◌, ◌*◌, ◌/◌, ◌%◌, ◌^◌, ◌<◌, ◌≤◌, ◌≡◌, ◌≢◌, refl, ap, ◌∙◌, Bool, true, false, [],
  ◌∷◌, ◌++◌, length, length-append, ◌==◌, if◌then◌else◌, arith, append_assoc, get_or, drop, set,
}
use powerdns_improved_lua.Name.{Bytes}
use powerdns_improved_lua.Wire.{ok}
use powerdns_improved_lua.Wire.Writer.{
  PacketWriter, Place, answer, authority, additional, bump16, count_index, record_header, commit,
}

pub get_or-set_self : (xs : Bytes) (i v : ℕ) → i < length xs → get_or (set xs i v) i 0 ≡ v
get_or-set_self [] i v h = absurd (omega arith)
get_or-set_self (x ∷ xs) zero v h = refl
get_or-set_self (x ∷ xs) (suc i) v h = get_or-set_self xs i v (omega arith)

pub get_or-set_ne : (xs : Bytes) (i j v : ℕ) → i ≢ j → get_or (set xs i v) j 0 ≡ get_or xs j 0
get_or-set_ne [] i j v h = refl
get_or-set_ne (x ∷ xs) zero zero v h = absurd (h refl)
get_or-set_ne (x ∷ xs) zero (suc j) v h = refl
get_or-set_ne (x ∷ xs) (suc i) zero v h = refl
get_or-set_ne (x ∷ xs) (suc i) (suc j) v h = get_or-set_ne xs i j v (λ e. h (ap suc e))

pub get_or-append : (xs ys : Bytes) (i : ℕ) → i < length xs → get_or (xs ++ ys) i 0 ≡ get_or xs i 0
get_or-append [] ys i h = absurd (omega arith)
get_or-append (x ∷ xs) ys zero h = refl
get_or-append (x ∷ xs) ys (suc i) h = get_or-append xs ys i (omega arith)

drop-set : (n i v : ℕ) (xs : Bytes) → i < n → drop n (set xs i v) ≡ drop n xs
drop-set zero i v xs h = absurd (omega arith)
drop-set (suc n) i v [] h = refl
drop-set (suc n) zero v (x ∷ xs) h = refl
drop-set (suc n) (suc i) v (x ∷ xs) h = drop-set n i v xs (omega arith)

drop-append_short : (n : ℕ) (xs ys : Bytes) → n ≤ length xs → drop n (xs ++ ys) ≡ drop n xs ++ ys
drop-append_short zero xs ys h = refl
drop-append_short (suc n) [] ys h = absurd (omega arith)
drop-append_short (suc n) (x ∷ xs) ys h = drop-append_short n xs ys (omega arith)

pub length-set : (xs : Bytes) (i v : ℕ) → length (set xs i v) ≡ length xs
length-set [] i v = refl
length-set (x ∷ xs) zero v = refl
length-set (x ∷ xs) (suc i) v = ap suc (length-set xs i v)

-- The counter of a section, as a number.
unfoldable pub section_count : Place → Bytes → ℕ
section_count place content =
    get_or content (count_index place) 0 * 256 + get_or content (count_index place + 1) 0

bump16_self :
    (i : ℕ) (content : Bytes)
    → i + 1 < length content
    → get_or (bump16 i content) i 0 * 256 + get_or (bump16 i content) (i + 1) 0
      ≡ (get_or content i 0 * 256 + get_or content (i + 1) 0 + 1) % 2 ^ 16
unfolding bump16
bump16_self i content h =
    let v = (get_or content i 0 * 256 + get_or content (i + 1) 0 + 1) % 2 ^ 16 in
    let first = set content i (v / 256) in
    omega (
      arith,
      get_or-set_ne first (i + 1) i (v % 256) (omega arith),
      get_or-set_self content i (v / 256) (omega arith),
      get_or-set_self first (i + 1) (v % 256) (omega (arith, length-set content i (v / 256))),
    )

bump16_other :
    (i j : ℕ) (content : Bytes)
    → i ≢ j
    → i + 1 ≢ j
    → get_or (bump16 i content) j 0 ≡ get_or content j 0
unfolding bump16
bump16_other i j content h k =
    let v = (get_or content i 0 * 256 + get_or content (i + 1) 0 + 1) % 2 ^ 16 in
    get_or-set_ne (set content i (v / 256)) (i + 1) j (v % 256) k
    ∙ get_or-set_ne content i j (v / 256) h

count_index-lt : (p : Place) → count_index p + 1 < 12
unfolding count_index
count_index-lt answer = omega arith
count_index-lt authority = omega arith
count_index-lt additional = omega arith

count_index_apart :
    (p q : Place)
    → q ≢ p
    → (count_index p ≢ count_index q)
      × (count_index p + 1 ≢ count_index q)
      × (count_index p ≢ count_index q + 1)
      × (count_index p + 1 ≢ count_index q + 1)
unfolding count_index
count_index_apart answer answer h = absurd (h refl)
count_index_apart answer authority h = omega arith
count_index_apart answer additional h = omega arith
count_index_apart authority answer h = omega arith
count_index_apart authority authority h = absurd (h refl)
count_index_apart authority additional h = omega arith
count_index_apart additional answer h = omega arith
count_index_apart additional authority h = omega arith
count_index_apart additional additional h = absurd (h refl)

section_count-append :
    (p : Place) (xs ys : Bytes) → 12 ≤ length xs → section_count p (xs ++ ys) ≡ section_count p xs
section_count-append p xs ys h =
    let lt = count_index-lt p in
    let a = get_or-append xs ys (count_index p) (omega arith) in
    let b = get_or-append xs ys (count_index p + 1) (omega arith) in
    unfold section_count in rw (a, b) refl

drop-bump16 : (i : ℕ) (content : Bytes) → i + 1 < 12 → drop 12 (bump16 i content) ≡ drop 12 content
unfolding bump16
drop-bump16 i content h =
    let v = (get_or content i 0 * 256 + get_or content (i + 1) 0 + 1) % 2 ^ 16 in
    drop-set 12 (i + 1) (v % 256) (set content i (v / 256)) h
    ∙ drop-set 12 i (v / 256) content (omega arith)

count_self :
    (p : Place) (content : Bytes)
    → 12 ≤ length content
    → section_count p (bump16 (count_index p) content) ≡ (section_count p content + 1) % 2 ^ 16
unfolding section_count
count_self p content h = bump16_self (count_index p) content (omega (arith, count_index-lt p))

count_other :
    (p q : Place) (content : Bytes)
    → q ≢ p
    → section_count q (bump16 (count_index p) content) ≡ section_count q content
count_other p q content h =
    let (a, b, c, d) = count_index_apart p q h in
    let first = bump16_other (count_index p) (count_index q) content a b in
    let second = bump16_other (count_index p) (count_index q + 1) content c d in
    unfold section_count in rw (first, second) refl

-- What `commit` writes, without the counters.
abbrev committed : PacketWriter → Bytes
committed pw = (pw.content ++ record_header pw) ++ pw.pending

commit-ok :
    (pw : PacketWriter)
    → pw.stuff ≢ 0xffff
    → commit pw
      ≡ ok (record pw {
        content = bump16 (count_index pw.recordplace) (committed pw);
        stuff = 0;
        pending = [];
      })
unfolding commit
commit-ok pw h = let started : (pw.stuff == 0xffff) ≡ false = ground arith in rw started refl

same_place : Place → Place → Bool
same_place answer answer = true
same_place authority authority = true
same_place additional additional = true
same_place _ _ = false

-- A counter after a record was counted in a section: one higher, as a uint16_t, if it is that
-- section's, and else the same.
pub counted : Place → Place → ℕ → ℕ
unfolding same_place
counted place q n = if same_place place q then (n + 1) % 2 ^ 16 else n

count-counted :
    (p q : Place) (content : Bytes)
    → 12 ≤ length content
    → section_count q (bump16 (count_index p) content) ≡ counted p q (section_count q content)
unfolding counted
count-counted answer answer content h = count_self answer content h
count-counted authority authority content h = count_self authority content h
count-counted additional additional content h = count_self additional content h
count-counted answer authority content h = count_other answer authority content (λ e. cc)
count-counted answer additional content h = count_other answer additional content (λ e. cc)
count-counted authority answer content h = count_other authority answer content (λ e. cc)
count-counted authority additional content h = count_other authority additional content (λ e. cc)
count-counted additional answer content h = count_other additional answer content (λ e. cc)
count-counted additional authority content h = count_other additional authority content (λ e. cc)

-- `commit` appends the record's header and data to the packet, counts the record in its section and
-- leaves the counters of the other sections; nothing is pending then. The packet has its header,
-- and a record was started.
pub commit_lem :
    (pw : PacketWriter) (q : Place)
    → 12 ≤ length pw.content
    → pw.stuff ≢ 0xffff
    → (pw' : PacketWriter) × (commit pw ≡ ok pw')
      × (pw'.pending ≡ [])
      × (drop 12 pw'.content ≡ drop 12 pw.content ++ (record_header pw ++ pw.pending))
      × (section_count q pw'.content ≡ counted pw.recordplace q (section_count q pw.content))
commit_lem pw q h s =
    let place = pw.recordplace in
    let written = committed pw in
    let regroup : written ≡ pw.content ++ (record_header pw ++ pw.pending) =
      append_assoc pw.content (record_header pw) pw.pending in
    let long : 12 ≤ length written =
      omega (arith, ap length regroup, length-append pw.content (record_header pw ++ pw.pending)) in
    let same : section_count q written ≡ section_count q pw.content =
      ap (section_count q) regroup
      ∙ section_count-append q pw.content (record_header pw ++ pw.pending) h in
    (
      record pw { content = bump16 (count_index place) written; stuff = 0; pending = [] },
      commit-ok pw s,
      refl,
      drop-bump16 (count_index place) written (count_index-lt place)
          ∙ ap (drop 12) regroup
          ∙ drop-append_short 12 pw.content (record_header pw ++ pw.pending) h,
      count-counted place q written long ∙ ap (counted place q) same,
    )
