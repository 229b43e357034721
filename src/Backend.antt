-- ===== src/Backend.antt =====
-- The records that a backend of the authoritative server gives (pdns/pdns/dns.hh), with their types
-- (pdns/pdns/qtype.cc), and their text in the query cache.
pub mod Serialize
pub mod Soa
pub mod Ueber
use powerdns_improved_lua.Prelude.{
  ℕ, zero, suc, ◌+◌, ◌-◌, ◌%◌, ◌^◌, Bool, true, false, not, ◌&&◌, ◌||◌, List, [], ◌∷◌, ◌++◌, length,
  min, get_or, ltb, ◌==◌, if◌then◌else◌, drop,
}
use powerdns_improved_lua.Prelude.Int.{ℤ, pos, negsuc, to_int32}
use powerdns_improved_lua.Name.{Bytes}
use powerdns_improved_lua.Text.{take_while, drop_while}
use powerdns_improved_lua.RecordText.{is_space, is_digit}
use powerdns_improved_lua.RecordText.Reader.{digits_value}
use powerdns_improved_lua.RecordText.Writer.{decimal}
use powerdns_improved_lua.PacketCache.{to_unsigned}

-- The names of types, in the order of their insertion.
abbrev pub names : List (Bytes × ℕ)
names =
    (b'A' ∷ [], 1)
    ∷ (b'N' ∷ b'S' ∷ [], 2)
    ∷ (b'C' ∷ b'N' ∷ b'A' ∷ b'M' ∷ b'E' ∷ [], 5)
    ∷ (b'S' ∷ b'O' ∷ b'A' ∷ [], 6)
    ∷ (b'M' ∷ b'R' ∷ [], 9)
    ∷ (b'P' ∷ b'T' ∷ b'R' ∷ [], 12)
    ∷ (b'H' ∷ b'I' ∷ b'N' ∷ b'F' ∷ b'O' ∷ [], 13)
    ∷ (b'M' ∷ b'X' ∷ [], 15)
    ∷ (b'T' ∷ b'X' ∷ b'T' ∷ [], 16)
    ∷ (b'R' ∷ b'P' ∷ [], 17)
    ∷ (b'A' ∷ b'F' ∷ b'S' ∷ b'D' ∷ b'B' ∷ [], 18)
    ∷ (b'S' ∷ b'I' ∷ b'G' ∷ [], 24)
    ∷ (b'K' ∷ b'E' ∷ b'Y' ∷ [], 25)
    ∷ (b'A' ∷ b'A' ∷ b'A' ∷ b'A' ∷ [], 28)
    ∷ (b'L' ∷ b'O' ∷ b'C' ∷ [], 29)
    ∷ (b'S' ∷ b'R' ∷ b'V' ∷ [], 33)
    ∷ (b'C' ∷ b'E' ∷ b'R' ∷ b'T' ∷ [], 37)
    ∷ (b'A' ∷ b'6' ∷ [], 38)
    ∷ (b'N' ∷ b'A' ∷ b'P' ∷ b'T' ∷ b'R' ∷ [], 35)
    ∷ (b'D' ∷ b'S' ∷ [], 43)
    ∷ (b'S' ∷ b'S' ∷ b'H' ∷ b'F' ∷ b'P' ∷ [], 44)
    ∷ (b'R' ∷ b'R' ∷ b'S' ∷ b'I' ∷ b'G' ∷ [], 46)
    ∷ (b'N' ∷ b'S' ∷ b'E' ∷ b'C' ∷ [], 47)
    ∷ (b'D' ∷ b'N' ∷ b'S' ∷ b'K' ∷ b'E' ∷ b'Y' ∷ [], 48)
    ∷ (b'N' ∷ b'S' ∷ b'E' ∷ b'C' ∷ b'3' ∷ [], 50)
    ∷ (b'N' ∷ b'S' ∷ b'E' ∷ b'C' ∷ b'3' ∷ b'P' ∷ b'A' ∷ b'R' ∷ b'A' ∷ b'M' ∷ [], 51)
    ∷ (b'S' ∷ b'P' ∷ b'F' ∷ [], 99)
    ∷ (b'I' ∷ b'X' ∷ b'F' ∷ b'R' ∷ [], 251)
    ∷ (b'A' ∷ b'X' ∷ b'F' ∷ b'R' ∷ [], 252)
    ∷ (b'A' ∷ b'N' ∷ b'Y' ∷ [], 255)
    ∷ (b'U' ∷ b'R' ∷ b'L' ∷ [], 256)
    ∷ (b'M' ∷ b'B' ∷ b'O' ∷ b'X' ∷ b'F' ∷ b'W' ∷ [], 257)
    ∷ (b'C' ∷ b'U' ∷ b'R' ∷ b'L' ∷ [], 258)
    ∷ (b'A' ∷ b'D' ∷ b'D' ∷ b'R' ∷ [], 259)
    ∷ []

unfoldable pub same_bytes : Bytes → Bytes → Bool
same_bytes [] [] = true
same_bytes [] (y ∷ ys) = false
same_bytes (x ∷ xs) [] = false
same_bytes (x ∷ xs) (y ∷ ys) = x == y && same_bytes xs ys

-- A number in decimal: an int has ten digits, a time_t nineteen.
unfoldable pub itoa : ℤ → Bytes
itoa (pos n) = decimal 20 n
itoa (negsuc n) = b'-' ∷ decimal 20 (suc n)

-- `getName` of a code, which is a short int here, of a 16-bit number: the bounds of the code are
-- those of a short int.
abbrev pub short_int : ℕ → ℤ
short_int code = if ltb code (2 ^ 15) then pos code else negsuc (2 ^ 16 - 1 - code)

unfoldable pub name_in : List (Bytes × ℕ) → ℕ → Bytes
name_in [] code = b'#' ∷ itoa (short_int code)
name_in ((name, number) ∷ names) code =
    let rest = name_in names code in if number == code then name else rest

unfoldable pub get_name : ℕ → Bytes
get_name code = name_in names code

unfoldable pub code_in : List (Bytes × ℕ) → Bytes → ℕ
code_in [] p = 0
code_in ((name, number) ∷ names) p =
    let rest = code_in names p in if same_bytes name p then number else rest

unfoldable pub chartocode : Bytes → ℕ
chartocode p = code_in names p

-- DNSResourceRecord. A type is its 16-bit code.
pub record ResourceRecord : Type 0 where
  pub qtype : ℕ
  pub qclass : ℕ
  pub qname : Bytes
  pub wildcardname : Bytes
  pub content : Bytes
  pub priority : ℕ
  pub ttl : ℕ
  pub domain_id : ℤ
  pub last_modified : ℤ
  pub d_place : ℕ
  pub auth : Bool

unfoldable pub escape : Bytes → Bytes
escape [] = []
escape (c ∷ name) =
    let rest = escape name in if c == b'|' || c == b'\\' then b'\\' ∷ c ∷ rest else c ∷ rest

unfoldable pub serialize : ResourceRecord → Bytes
serialize r =
    escape r.qname
    ++ (b'|'
        ∷ (get_name r.qtype
            ++ (b'|'
                ∷ (escape r.content
                    ++ (b'|'
                        ∷ (decimal 20 r.ttl
                            ++ (b'|'
                                ∷ (decimal 20 r.priority
                                    ++ (b'|'
                                        ∷ (itoa r.domain_id
                                            ++ (b'|' ∷ itoa r.last_modified)))))))))))

-- atoi: white space, a sign, and digits up to the first other character; the long that they are,
-- held between its bounds, is cut to an int.
abbrev pub white : ℕ → Bool
white c = is_space c || (c == 11 || c == 12)

unfoldable pub digits_of : Bytes → ℕ
digits_of s = digits_value 0 (take_while is_digit s)

unfoldable pub atoi : Bytes → ℤ
atoi s =
    let t = drop_while white s in
    let sign = get_or t 0 0 in
    if sign == b'-'
    then to_int32 (2 ^ 32 - min (digits_of (drop 1 t)) (2 ^ 63) % 2 ^ 32)
    else if sign == b'+'
    then to_int32 (min (digits_of (drop 1 t)) (2 ^ 63 - 1))
    else to_int32 (min (digits_of t) (2 ^ 63 - 1))

-- A chunk, up to the first "|" that is not escaped, and what follows; `escaped` says that the
-- character before is a backslash, which stands for itself at the end.
unfoldable pub chunk : Bool → Bytes → Bytes × Bytes
chunk true [] = (b'\\' ∷ [], [])
chunk false [] = ([], [])
chunk escaped (c ∷ source) =
    let backslash = not escaped && c == b'\\' in
    let (more, rest) = chunk backslash source in
    if backslash
    then (more, rest)
    else if not escaped && c == b'|'
    then ([], source)
    else (c ∷ more, rest)

-- `unSerialize`, into a record that keeps its other members.
unfoldable pub un_serialize : ResourceRecord → Bytes → ResourceRecord
un_serialize r source =
    let (qname, s1) = chunk false source in
    let (qtype, s2) = chunk false s1 in
    let (content, s3) = chunk false s2 in
    let (ttl, s4) = chunk false s3 in
    let (priority, s5) = chunk false s4 in
    let (domain_id, s6) = chunk false s5 in
    let (last_modified, s7) = chunk false s6 in
    record r {
      qname = qname;
      qtype = chartocode qtype;
      content = content;
      ttl = to_unsigned (atoi ttl);
      priority = to_unsigned (atoi priority) % 2 ^ 16;
      domain_id = atoi domain_id;
      last_modified = atoi last_modified;
    }
