-- ===== src/Backend/Serialize.antt =====
-- The text of a record in the query cache, `serialize` and `unSerialize` of pdns/pdns/qtype.cc.
use powerdns_improved_lua.Prelude.{
  ℕ, suc, ◌+◌, ◌-◌, ◌%◌, ◌^◌, ◌<◌, ◌≤◌, ◌≡◌, refl, sym, ap, ◌∙◌, inl, inr, Bool, true, false, not,
  ◌&&◌, ◌||◌, List, [], ◌∷◌, ◌++◌, length, min, ltb, leb, ◌==◌, arith, Bool-cases, append-nil,
}
use powerdns_improved_lua.Prelude.Int.{ℤ, pos, negsuc, pos_part, neg_part, to_int32}
use powerdns_improved_lua.Name.{Bytes}
use powerdns_improved_lua.Text.{take_while, drop_while}
use powerdns_improved_lua.RecordText.{is_space, is_digit}
use powerdns_improved_lua.RecordText.Reader.{digits_value}
use powerdns_improved_lua.RecordText.Writer.{decimal}
use powerdns_improved_lua.RecordText.Fields.{all_in, stops, take_while-append}
use powerdns_improved_lua.RecordText.Numbers.{
  limit, digits_value-decimal, all_in-decimal, length-decimal,
}
use powerdns_improved_lua.PacketCache.{to_unsigned}
use powerdns_improved_lua.Backend.{
  names, itoa, short_int, name_in, get_name, chartocode, ResourceRecord, escape, serialize,
  digits_of, atoi, chunk, un_serialize,
}

abbrev pub plain : ℕ → Bool
plain c = not (c == b'|') && not (c == b'\\')

chunk-escape : (s rest : Bytes) → chunk false (escape s ++ (b'|' ∷ rest)) ≡ (s, rest)
unfolding chunk escape
chunk-escape [] rest = refl
chunk-escape (c ∷ s) rest = elim (Bool-cases (c == b'|' || c == b'\\')) [
  | inl h ↦ ground (arith, chunk-escape s rest)
  | inr h ↦ ground (arith, chunk-escape s rest)
]

chunk-plain :
    (s rest : Bytes) → all_in plain s ≡ true → chunk false (s ++ (b'|' ∷ rest)) ≡ (s, rest)
unfolding chunk all_in
chunk-plain [] rest h = refl
chunk-plain (c ∷ s) rest h = ground (arith, chunk-plain s rest)

chunk-end : (s : Bytes) → all_in plain s ≡ true → chunk false s ≡ (s, [])
unfolding chunk all_in
chunk-end [] h = refl
chunk-end (c ∷ s) h = ground (arith, chunk-end s)

digits-plain : (s : Bytes) → all_in is_digit s ≡ true → all_in plain s ≡ true
unfolding all_in is_digit
digits-plain [] h = refl
digits-plain (c ∷ s) h = ground (arith, digits-plain s)

decimal-plain : (n v : ℕ) → all_in plain (decimal n v) ≡ true
decimal-plain n v = digits-plain (decimal n v) (all_in-decimal n v)

itoa-plain : (z : ℤ) → all_in plain (itoa z) ≡ true
unfolding itoa all_in
itoa-plain (pos n) = decimal-plain 20 n
itoa-plain (negsuc n) = decimal-plain 20 (suc n)

abbrev pub all_plain : List (Bytes × ℕ) → Bool
all_plain [] = true
all_plain ((name, number) ∷ names) = all_in plain name && all_plain names

name_in-plain :
    (names : List (Bytes × ℕ)) (code : ℕ)
    → all_plain names ≡ true
    → all_in plain (name_in names code) ≡ true
unfolding name_in all_in
name_in-plain [] code h = itoa-plain (short_int code)
name_in-plain ((name, number) ∷ names) code h = ground (arith, name_in-plain names code)

get_name-plain : (code : ℕ) → all_in plain (get_name code) ≡ true
unfolding get_name
get_name-plain code = name_in-plain names code (unfold all_in in refl)

-- Digits are read back, with a sign or without.
pub digits_of-decimal : (v : ℕ) → v < 2 ^ 63 → digits_of (decimal 20 v) ≡ v
unfolding digits_of limit
digits_of-decimal v h =
    ap (digits_value 0) (
      ap (take_while is_digit) (sym (append-nil (decimal 20 v)))
      ∙ take_while-append is_digit (decimal 20 v) [] (all_in-decimal 20 v) (unfold stops in refl))
    ∙ digits_value-decimal 20 v (omega arith)

atoi-digits :
    (d : ℕ) (ds : Bytes)
    → is_digit d ≡ true
    → atoi (d ∷ ds) ≡ to_int32 (min (digits_of (d ∷ ds)) (2 ^ 63 - 1))
unfolding atoi drop_while is_digit is_space
atoi-digits d ds h = ground arith

atoi-minus : (s : Bytes) → atoi (b'-' ∷ s) ≡ to_int32 (2 ^ 32 - min (digits_of s) (2 ^ 63) % 2 ^ 32)
unfolding atoi drop_while is_space
atoi-minus s = refl

pub digits-cases :
    (s : Bytes)
    → all_in is_digit s ≡ true
    → 0 < length s
    → (d : ℕ) × (ds : Bytes) × (s ≡ d ∷ ds) × (is_digit d ≡ true)
unfolding all_in
digits-cases [] h k = absurd (omega arith)
digits-cases (d ∷ ds) h k = (d, ds, refl, ground arith)

to_int32-small : (v : ℕ) → v < 2 ^ 31 → to_int32 (min v (2 ^ 63 - 1)) ≡ pos v
unfolding to_int32
to_int32-small v h = ground arith

pub atoi-decimal : (v : ℕ) → v < 2 ^ 31 → atoi (decimal 20 v) ≡ pos v
atoi-decimal v h =
    let (d, ds, eq, digit) =
      digits-cases (decimal 20 v) (all_in-decimal 20 v) (length-decimal 19 v) in
    ap atoi eq
    ∙ atoi-digits d ds digit
    ∙ ap (λ s. to_int32 (min (digits_of s) (2 ^ 63 - 1))) (sym eq)
    ∙ ap (λ n. to_int32 (min n (2 ^ 63 - 1))) (digits_of-decimal v (omega arith))
    ∙ to_int32-small v h

-- The range of an int.
abbrev pub IsInt : ℤ → Type 0
IsInt z = (pos_part z < 2 ^ 31) × (neg_part z ≤ 2 ^ 31)

to_int32-high : (m n : ℕ) → m + suc n ≡ 2 ^ 32 → suc n ≤ 2 ^ 31 → to_int32 m ≡ negsuc n
unfolding to_int32
to_int32-high m n h k =
    let same : m % 2 ^ 32 ≡ m = omega arith in
    let value : 2 ^ 32 - m - 1 ≡ n = omega arith in
    let low : ltb m (2 ^ 31) ≡ false = ground arith in
    let below : leb (2 ^ 32) m ≡ false = ground arith in ground arith

to_int32-negative :
    (n : ℕ) → suc n ≤ 2 ^ 31 → to_int32 (2 ^ 32 - min (suc n) (2 ^ 63) % 2 ^ 32) ≡ negsuc n
to_int32-negative n h = to_int32-high (2 ^ 32 - min (suc n) (2 ^ 63) % 2 ^ 32) n (omega arith) h

pub atoi-itoa : (z : ℤ) → IsInt z → atoi (itoa z) ≡ z
unfolding itoa
atoi-itoa (pos n) h = atoi-decimal n h.0
atoi-itoa (negsuc n) h =
    atoi-minus (decimal 20 (suc n))
    ∙ ap (λ m. to_int32 (2 ^ 32 - min m (2 ^ 63) % 2 ^ 32))
        (digits_of-decimal (suc n) (omega arith))
    ∙ to_int32-negative n (omega arith)

pub to_unsigned-pos : (v : ℕ) → v < 2 ^ 32 → to_unsigned (pos v) ≡ v
unfolding to_unsigned
to_unsigned-pos v h = omega arith

pub read_number : (n : ℕ) → n < 2 ^ 31 → to_unsigned (atoi (decimal 20 n)) ≡ n
read_number n h = ap to_unsigned (atoi-decimal n h) ∙ to_unsigned-pos n (omega arith)

-- The chunks of a source are the members that it is read into.
un_serialize-chunks :
    (r : ResourceRecord)
    (source qname s1 qtype s2 content s3 ttl s4 priority s5 domain_id s6 last s7 : Bytes)
    → chunk false source ≡ (qname, s1)
    → chunk false s1 ≡ (qtype, s2)
    → chunk false s2 ≡ (content, s3)
    → chunk false s3 ≡ (ttl, s4)
    → chunk false s4 ≡ (priority, s5)
    → chunk false s5 ≡ (domain_id, s6)
    → chunk false s6 ≡ (last, s7)
    → un_serialize r source ≡ record r {
      qname = qname;
      qtype = chartocode qtype;
      content = content;
      ttl = to_unsigned (atoi ttl);
      priority = to_unsigned (atoi priority) % 2 ^ 16;
      domain_id = atoi domain_id;
      last_modified = atoi last;
    }
unfolding un_serialize
un_serialize-chunks r source qname s1 qtype s2 content s3 ttl s4 priority s5 domain_id s6 last s7 h1
      h2 h3 h4 h5 h6 h7 =
    cc

-- What a record x is in the cache's text, of a type with a name, with a time to live below 2 ^ 31 and
-- a priority, a domain and a time of last change in their ranges: read into a record r, it gives r the
-- seven members of x that the text has. The class, the place, the wildcard's name and `auth` are those of r.
pub un_serialize-serialize :
    (r x : ResourceRecord)
    → chartocode (get_name x.qtype) ≡ x.qtype
    → x.ttl < 2 ^ 31
    → x.priority < 2 ^ 16
    → IsInt x.domain_id
    → IsInt x.last_modified
    → un_serialize r (serialize x) ≡ record r {
      qname = x.qname;
      qtype = x.qtype;
      content = x.content;
      ttl = x.ttl;
      priority = x.priority;
      domain_id = x.domain_id;
      last_modified = x.last_modified;
    }
unfolding serialize
un_serialize-serialize r x named ttl priority domain last =
    let read =
      un_serialize-chunks r (serialize x) x.qname _ (get_name x.qtype) _ x.content _
        (decimal 20 x.ttl) _ (decimal 20 x.priority) _ (itoa x.domain_id) _ (itoa x.last_modified)
        [] (chunk-escape x.qname _) (chunk-plain (get_name x.qtype) _ (get_name-plain x.qtype))
        (chunk-escape x.content _) (chunk-plain (decimal 20 x.ttl) _ (decimal-plain 20 x.ttl))
        (chunk-plain (decimal 20 x.priority) _ (decimal-plain 20 x.priority))
        (chunk-plain (itoa x.domain_id) _ (itoa-plain x.domain_id))
        (chunk-end (itoa x.last_modified) (itoa-plain x.last_modified)) in
    let short : to_unsigned (atoi (decimal 20 x.priority)) % 2 ^ 16 ≡ x.priority =
      ap (λ n. n % 2 ^ 16) (read_number x.priority (omega arith)) ∙ omega arith in
    read
    ∙ rw (
      named,
      read_number x.ttl ttl,
      short,
      atoi-itoa x.domain_id domain,
      atoi-itoa x.last_modified last,
    )
