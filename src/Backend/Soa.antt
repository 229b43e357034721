-- ===== src/Backend/Soa.antt =====
-- The SOA record of a zone as a backend of the authoritative server knows it: pdns/pdns/dnspacket.cc
-- and `DNSBackend::getSOA` of pdns/pdns/dnsbackend.cc.
pub mod Fields
use powerdns_improved_lua.Prelude.{
  ℕ, zero, suc, ◌+◌, ◌-◌, ◌%◌, ◌^◌, Bool, true, false, not, ◌&&◌, ◌||◌, List, [], ◌∷◌, ◌++◌, length,
  min, get_or, ltb, ◌==◌, if◌then◌else◌, drop, Option, none, some,
}
use powerdns_improved_lua.Prelude.Int.{ℤ, pos, negsuc, ltb_ℤ}
use powerdns_improved_lua.Name.{Bytes}
use powerdns_improved_lua.Text.{find, stringtok, drop_while}
use powerdns_improved_lua.RecordText.Writer.{decimal}
use powerdns_improved_lua.PacketCache.{to_unsigned}
use powerdns_improved_lua.Backend.{ResourceRecord, atoi, digits_of, white}

-- What the pointer to a backend says: -1 for no use of the cache, 0 for an answer out of the cache, or
-- a live backend.
pub data Db : Type 0 where
  skip_cache : Db
  null : Db
  live : Db

pub record SoaData : Type 0 where
  pub qname : Bytes
  pub nameserver : Bytes
  pub hostmaster : Bytes
  pub ttl : ℕ
  pub serial : ℕ
  pub refresh : ℕ
  pub retry : ℕ
  pub expire : ℕ
  pub default_ttl : ℕ
  pub domain_id : ℤ
  pub db : Db

pub record SoaSettings : Type 0 where
  pub soa_refresh_default : ℤ
  pub soa_retry_default : ℤ
  pub soa_expire_default : ℤ
  pub soa_minimum_ttl : ℤ
  pub default_soa_name : Bytes

-- The loop of `attodot`: dots are escaped up to the first "@", which becomes a dot.
unfoldable pub attodot_loop : Bytes → Bytes
attodot_loop [] = []
attodot_loop (c ∷ s) =
    let rest = attodot_loop s in
    if c == b'@' then b'.' ∷ s else if c == b'.' then b'\\' ∷ b'.' ∷ rest else c ∷ rest

unfoldable pub attodot : Bytes → Bytes
attodot s = elim (find b'@' s) [ none ↦ s | some i ↦ attodot_loop s ]

-- strtoul to the base of ten, cut to 32 bits.
unfoldable pub strtoul : Bytes → ℕ
strtoul s =
    let t = drop_while white s in
    let sign = get_or t 0 0 in
    if sign == b'-'
    then (2 ^ 64 - min (digits_of (drop 1 t)) (2 ^ 64 - 1)) % 2 ^ 32
    else if sign == b'+'
    then min (digits_of (drop 1 t)) (2 ^ 64 - 1) % 2 ^ 32
    else min (digits_of t) (2 ^ 64 - 1) % 2 ^ 32

-- The delimiters of `stringtok` where none are given.
unfoldable pub blank : ℕ → Bool
blank c = c == b' ' || (c == 9 || c == 10)

-- The part with the given index, read by `f`, where the content has so many.
unfoldable pub part_or {ℓ} : {A : Type ℓ} → (Bytes → A) → A → ℕ → List Bytes → A
part_or f other i [] = other
part_or f other zero (part ∷ parts) = f part
part_or f other (suc i) (part ∷ parts) = part_or f other i parts

unfoldable pub fill_soa_data : SoaSettings → Bytes → SoaData → SoaData
fill_soa_data s content data' =
    let parts = stringtok blank content in
    let number : Bytes → ℕ = λ part. to_unsigned (atoi part) in
    record data' {
      nameserver = part_or (λ part. part) data'.nameserver 0 parts;
      hostmaster = part_or attodot data'.hostmaster 1 parts;
      serial = part_or strtoul 0 2 parts;
      refresh = part_or number (to_unsigned s.soa_refresh_default) 3 parts;
      retry = part_or number (to_unsigned s.soa_retry_default) 4 parts;
      expire = part_or number (to_unsigned s.soa_expire_default) 5 parts;
      default_ttl = part_or number (to_unsigned s.soa_minimum_ttl) 6 parts;
    }

unfoldable pub serialize_soa_data : SoaData → Bytes
serialize_soa_data d =
    d.nameserver
    ++ (b' '
        ∷ (d.hostmaster
            ++ (b' '
                ∷ (decimal 20 d.serial
                    ++ (b' '
                        ∷ (decimal 20 d.refresh
                            ++ (b' '
                                ∷ (decimal 20 d.retry
                                    ++ (b' '
                                        ∷ (decimal 20 d.expire
                                            ++ (b' ' ∷ decimal 20 d.default_ttl)))))))))))

-- A backend: the records that `get` gives one after the other after a `lookup` of a type, a name and
-- a zone, and those after a `list` of a domain where it does not fail.
pub record Backend : Type 0 where
  pub lookup : ℕ → Bytes → ℤ → List ResourceRecord
  pub list : Bytes → ℤ → Option (List ResourceRecord)

-- The loop on the answers to a `lookup`.
unfoldable pub fill_from : SoaSettings → List ResourceRecord → SoaData → SoaData
fill_from s [] sd = sd
fill_from s (rr ∷ answers) sd =
    fill_from s answers
      (record (fill_soa_data s rr.content sd) { domain_id = rr.domain_id; ttl = rr.ttl })

unfoldable pub newest_of : ℤ → List ResourceRecord → ℤ
newest_of newest [] = newest
newest_of newest (i ∷ records) =
    newest_of (if ltb_ℤ newest i.last_modified then i.last_modified else newest) records

-- "hostmaster.".
abbrev pub hostmaster_dot : Bytes
hostmaster_dot = b'h' ∷ b'o' ∷ b's' ∷ b't' ∷ b'm' ∷ b'a' ∷ b's' ∷ b't' ∷ b'e' ∷ b'r' ∷ b'.' ∷ []

-- What stands in for an empty name server and an empty hostmaster.
unfoldable pub fill_names : SoaSettings → Bytes → SoaData → SoaData
fill_names s domain sd = record sd {
  nameserver = if length sd.nameserver == 0 then s.default_soa_name else sd.nameserver;
  hostmaster = if length sd.hostmaster == 0 then hostmaster_dot ++ domain else sd.hostmaster;
}

-- `DNSBackend::getSOA`: whether there is one, and the data as it is left.
unfoldable pub get_soa : SoaSettings → Backend → Bytes → SoaData → Bool × SoaData
get_soa s b domain sd =
    let answers = b.lookup 6 domain (negsuc 0) in
    let filled = fill_names s domain (fill_from s answers sd) in
    let calculated : Bool × SoaData = elim (b.list domain filled.domain_id) [
      | none ↦ (false, filled)
      | some records ↦
          (true, record filled { serial = to_unsigned (newest_of (pos 0) records); db = live })
    ] in
    if length answers == 0
    then (false, sd)
    else if filled.serial == 0
    then calculated
    else (true, record filled { db = live })
