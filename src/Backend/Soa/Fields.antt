-- ===== src/Backend/Soa/Fields.antt =====
-- The text of a SOA record, `serializeSOAData` and `fillSOAData` of pdns/pdns/dnspacket.cc.
use powerdns_improved_lua.Prelude.{
  ℕ, ◌-◌, ◌%◌, ◌^◌, ◌<◌, ◌≡◌, refl, sym, ap, ◌∙◌, true, not, List, [], ◌∷◌, length, min, arith,
}
use powerdns_improved_lua.Name.{Bytes}
use powerdns_improved_lua.Text.{stringtok, join, drop_while}
use powerdns_improved_lua.Text.Chop.{Lacks, find-none}
use powerdns_improved_lua.Text.Tokens.{AllPass, stringtok-join}
use powerdns_improved_lua.RecordText.{is_space, is_digit}
use powerdns_improved_lua.RecordText.Fields.{all_in}
use powerdns_improved_lua.RecordText.Numbers.{all_in-decimal, length-decimal}
use powerdns_improved_lua.RecordText.Writer.{decimal}
use powerdns_improved_lua.Backend.{digits_of}
use powerdns_improved_lua.Backend.Serialize.{digits-cases, digits_of-decimal, read_number}
use powerdns_improved_lua.Backend.Soa.{
  SoaData, SoaSettings, attodot, strtoul, blank, part_or, fill_soa_data, serialize_soa_data,
}

attodot-plain : (s : Bytes) → Lacks b'@' s → attodot s ≡ s
unfolding attodot
attodot-plain s h = ground (arith, find-none b'@' s h)

strtoul-digits :
    (d : ℕ) (ds : Bytes)
    → is_digit d ≡ true
    → strtoul (d ∷ ds) ≡ min (digits_of (d ∷ ds)) (2 ^ 64 - 1) % 2 ^ 32
unfolding strtoul drop_while is_digit is_space
strtoul-digits d ds h = ground arith

strtoul-decimal : (v : ℕ) → v < 2 ^ 32 → strtoul (decimal 20 v) ≡ v
strtoul-decimal v h =
    let (d, ds, eq, digit) =
      digits-cases (decimal 20 v) (all_in-decimal 20 v) (length-decimal 19 v) in
    ap strtoul eq
    ∙ strtoul-digits d ds digit
    ∙ ap (λ s. min (digits_of s) (2 ^ 64 - 1) % 2 ^ 32) (sym eq)
    ∙ ap (λ n. min n (2 ^ 64 - 1) % 2 ^ 32) (digits_of-decimal v (omega arith))
    ∙ omega arith

digits-AllPass : (s : Bytes) → all_in is_digit s ≡ true → AllPass (λ c. not (blank c)) s
unfolding all_in is_digit blank
digits-AllPass [] h = tt
digits-AllPass (c ∷ s) h = (ground arith, digits-AllPass s (ground arith))

-- A word for `stringtok`.
abbrev pub IsWord : Bytes → Type 0
IsWord s = (0 < length s) × AllPass (λ c. not (blank c)) s

decimal-IsWord : (v : ℕ) → IsWord (decimal 20 v)
decimal-IsWord v = (length-decimal 19 v, digits-AllPass (decimal 20 v) (all_in-decimal 20 v))

-- The seven words of the text.
abbrev pub words : SoaData → List Bytes
words d =
    d.nameserver
    ∷ d.hostmaster
    ∷ decimal 20 d.serial
    ∷ decimal 20 d.refresh
    ∷ decimal 20 d.retry
    ∷ decimal 20 d.expire
    ∷ decimal 20 d.default_ttl
    ∷ []

serialize-words : (d : SoaData) → serialize_soa_data d ≡ join b' ' (words d)
unfolding serialize_soa_data join
serialize-words d = refl

stringtok-words :
    (d : SoaData)
    → IsWord d.nameserver
    → IsWord d.hostmaster
    → stringtok blank (serialize_soa_data d) ≡ words d
stringtok-words d server master =
    let number : (v : ℕ) → IsWord (decimal 20 v) = decimal-IsWord in
    let (n1, a1) = number d.serial in
    let (n2, a2) = number d.refresh in
    let (n3, a3) = number d.retry in
    let (n4, a4) = number d.expire in
    let (n5, a5) = number d.default_ttl in
    ap (stringtok blank) (serialize-words d)
    ∙ stringtok-join blank b' ' (words d) (unfold blank in refl) (
      server.0,
      server.1,
      (master.0, master.1, (n1, a1, (n2, a2, (n3, a3, (n4, a4, (n5, a5, tt)))))),
    )

-- What the text of SOA data d is read into: a name server and a hostmaster of one word each, the
-- hostmaster without an "@", a serial number below 2 ^ 32 and the four times below 2 ^ 31 are the
-- data's own, whatever the defaults and the data x that is filled; the rest of x stays.
pub fill_soa_data-serialize_soa_data :
    (s : SoaSettings) (d x : SoaData)
    → IsWord d.nameserver
    → IsWord d.hostmaster
    → Lacks b'@' d.hostmaster
    → d.serial < 2 ^ 32
    → d.refresh < 2 ^ 31
    → d.retry < 2 ^ 31
    → d.expire < 2 ^ 31
    → d.default_ttl < 2 ^ 31
    → fill_soa_data s (serialize_soa_data d) x ≡ record x {
      nameserver = d.nameserver;
      hostmaster = d.hostmaster;
      serial = d.serial;
      refresh = d.refresh;
      retry = d.retry;
      expire = d.expire;
      default_ttl = d.default_ttl;
    }
unfolding fill_soa_data part_or
fill_soa_data-serialize_soa_data s d x server master no_at serial refresh retry expire minimum =
    rw (
      stringtok-words d server master,
      attodot-plain d.hostmaster no_at,
      strtoul-decimal d.serial serial,
      read_number d.refresh refresh,
      read_number d.retry retry,
      read_number d.expire expire,
      read_number d.default_ttl minimum,
    )
