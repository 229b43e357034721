-- ===== src/Tests/UeberTests.antt =====
-- Records and SOA data as text, questions to the backends, and the walk to a zone: runs and instances.
use powerdns_improved_lua.Prelude.{
  ℕ, ◌≡◌, refl, Bool, true, false, List, [], ◌∷◌, arith, length, none, ◌==◌,
}
use powerdns_improved_lua.Prelude.Int.{pos, negsuc}
use powerdns_improved_lua.Name.{Bytes, pdns_iequals, dns_tolower}
use powerdns_improved_lua.Text.{chop_off, find}
use powerdns_improved_lua.Text.Chop.{start, chopped}
use powerdns_improved_lua.PacketCache.{
  PacketCache, Settings, new_cache, get_entry, count_op, cleanup, clean_loop, need_ttls, get_ttls,
  get_entry_locked,
}
use powerdns_improved_lua.PacketCache as PacketCache
use powerdns_improved_lua.Backend.{
  ResourceRecord, get_name, name_in, chartocode, code_in, same_bytes, serialize, un_serialize,
}
use powerdns_improved_lua.Backend.Serialize.{un_serialize-serialize}
use powerdns_improved_lua.Backend.Soa.{
  SoaData, SoaSettings, live, skip_cache, Backend, fill_soa_data, serialize_soa_data, blank,
}
use powerdns_improved_lua.Backend.Soa.Fields.{fill_soa_data-serialize_soa_data}
use powerdns_improved_lua.Backend.Ueber.{
  QuerySettings, Question, UeberBackend, unknown, cache_has, lookup, get_all,
}
use powerdns_improved_lua.Backend.Ueber.Draining.{begun, remembered, get_all-lookup}
use powerdns_improved_lua.Backend.Ueber.Cached.{get_all-one, get_all-none}
use powerdns_improved_lua.Handler.{get_auth}
use powerdns_improved_lua.Handler.Auth.{FoundUpTo, get_auth-Chops}

-- "a|b".
abbrev odd_name : Bytes
odd_name = b'a' ∷ b'|' ∷ b'b' ∷ []

abbrev address : ResourceRecord
address = record {
  qtype = 1;
  qclass = 1;
  qname = odd_name;
  wildcardname = [];
  content = b'1' ∷ b'\\' ∷ [];
  priority = 7;
  ttl = 3600;
  domain_id = negsuc 0;
  last_modified = pos 12;
  d_place = 1;
  auth = true;
}

abbrev blank_record : ResourceRecord
blank_record = record {
  qtype = 0;
  qclass = 1;
  qname = [];
  wildcardname = [];
  content = [];
  priority = 0;
  ttl = 0;
  domain_id = pos 0;
  last_modified = pos 0;
  d_place = 1;
  auth = false;
}

-- `auth` is not that of the record that was cached.
un_serialize-serialize_example :
    un_serialize blank_record (serialize address) ≡ record address { auth = false }
un_serialize-serialize_example =
    un_serialize-serialize blank_record address
      (unfold get_name name_in chartocode code_in same_bytes in refl) (omega arith) (omega arith)
      (omega arith, omega arith) (omega arith, omega arith)

abbrev soa_settings : SoaSettings
soa_settings = record {
  soa_refresh_default = pos 10800;
  soa_retry_default = pos 3600;
  soa_expire_default = pos 604800;
  soa_minimum_ttl = pos 3600;
  default_soa_name = b'a' ∷ [];
}

abbrev soa_data : SoaData
soa_data = record {
  qname = [];
  nameserver = b'n' ∷ b's' ∷ [];
  hostmaster = b'h' ∷ b'.' ∷ b'x' ∷ [];
  ttl = 60;
  serial = 4000000000;
  refresh = 1;
  retry = 20;
  expire = 300;
  default_ttl = 4000;
  domain_id = pos 3;
  db = live;
}

abbrev empty_soa : SoaData
empty_soa = record {
  qname = [];
  nameserver = [];
  hostmaster = [];
  ttl = 0;
  serial = 0;
  refresh = 0;
  retry = 0;
  expire = 0;
  default_ttl = 0;
  domain_id = pos 0;
  db = skip_cache;
}

fill_soa_data-serialize_soa_data_example :
    fill_soa_data soa_settings (serialize_soa_data soa_data) empty_soa
    ≡ record soa_data { qname = []; ttl = 0; domain_id = pos 0; db = skip_cache }
fill_soa_data-serialize_soa_data_example =
    fill_soa_data-serialize_soa_data soa_settings soa_data empty_soa
      (omega arith, (unfold blank in refl, (unfold blank in refl, tt)))
      (omega arith, (unfold blank in refl, (unfold blank in refl, (unfold blank in refl, tt))))
      (λ p. omega (arith, p), (λ p. omega (arith, p), (λ p. omega (arith, p), tt))) (omega arith)
      (omega arith) (omega arith) (omega arith) (omega arith)

abbrev cache : PacketCache
cache = record {
  entries = [];
  ops = 1;
  ttl = pos 20;
  recursivettl = pos 10;
  do_recursion = false;
  statnumhit = 0;
  statnummiss = 0;
  statnumentries = 0;
}

abbrev query_settings : QuerySettings
query_settings = record {
  negqueryttl = pos 60;
  queryttl = pos 20;
  cache = record {
    cache_ttl = pos 20;
    recursive_cache_ttl = pos 10;
    recursor = false;
    max_cache_entries = 0;
  };
}

abbrev question : Question
question = record { qtype = 1; qname = odd_name; zone_id = pos 5 }

abbrev again : Question
again = record { qtype = 1; qname = odd_name; zone_id = negsuc 0 }

abbrev ueber : UeberBackend
ueber = record {
  pc = cache;
  qcachehit = 0;
  qcachemiss = 0;
  stale = false;
  question = again;
  answer = blank_record;
  negcached = false;
  cached = false;
  ancount = 0;
  lastrr = blank_record;
  handle_qtype = 0;
  handle_qname = [];
  hinter = [];
  others = [];
}

-- A backend without data, and one that answers all questions with one record.
abbrev empty_backend : Backend
empty_backend = record { lookup = λ qtype qname zone. []; list = λ domain zone. none }

abbrev full_backend : Backend
full_backend = record { lookup = λ qtype qname zone. address ∷ []; list = λ domain zone. none }

not_cached :
    (first : Backend) (backends : List Backend)
    → (cache_has query_settings 100 true question
        (begun query_settings 100 true first backends question ueber)).0
      ≡ unknown
unfolding cache_has get_entry count_op need_ttls get_entry_locked PacketCache.find
not_cached first backends = refl

-- The second backend is asked.
get_all-lookup_example :
    (let u =
        (lookup query_settings (empty_backend ∷ full_backend ∷ []) 100 true question ueber).1 in
      ((get_all 2 query_settings 100 true u).0 ≡ address ∷ [])
      × ((get_all 2 query_settings 100 true u).1.pc
          ≡ (remembered query_settings 100 true question
              (address ∷ [])
              (cache_has query_settings 100 true question (
                begun query_settings 100 true empty_backend
                  (full_backend ∷ [])
                  question
                  ueber)).1).pc))
get_all-lookup_example =
    get_all-lookup query_settings 100 true 2 empty_backend (full_backend ∷ []) question ueber refl
      (not_cached empty_backend (full_backend ∷ [])) (omega arith)

-- Another UeberBackend, whose backends have no data, after the question for the zone 5.
abbrev shared_after : List Backend → UeberBackend
shared_after backends = record ueber {
  pc =
      (get_all 2 query_settings 100 true
        (lookup query_settings (empty_backend ∷ backends) 100 true question ueber).1).1.pc;
}

get_all-one_example :
    (get_all 2 query_settings 110 true
      (lookup query_settings
        (empty_backend ∷ [])
        110
        true
        again
        (shared_after (full_backend ∷ []))).1).0
    ≡ un_serialize blank_record (serialize address) ∷ []
get_all-one_example =
    get_all-one 2 0 100 110 20 query_settings empty_backend empty_backend (full_backend ∷ []) []
      question again ueber (shared_after (full_backend ∷ [])) address refl refl
      (not_cached empty_backend (full_backend ∷ [])) refl (omega arith)
      (refl, omega arith, omega arith) (omega arith)
      (unfold pdns_iequals dns_tolower in refl, refl, refl) refl

get_all-none_example :
    (get_all 2 query_settings 110 true
      (lookup query_settings (full_backend ∷ []) 110 true again (shared_after [])).1).0
    ≡ []
get_all-none_example =
    get_all-none 2 0 100 110 60 query_settings empty_backend full_backend [] [] question again ueber
      (shared_after []) refl refl (not_cached empty_backend []) refl (omega arith) (omega arith)
      (refl, omega arith, omega arith) (omega arith)
      (unfold pdns_iequals dns_tolower in refl, refl, refl) refl

-- A backend that has the zone "b" and no state.
abbrev zone_b : Bytes → Bool
zone_b d = (length d == 1)

abbrev soa_of_b : Bytes → SoaData → ℕ → Bool × SoaData × ℕ
soa_of_b d sd n = (zone_b d, sd, n)

-- "aa.b".
abbrev below_b : Bytes
below_b = b'a' ∷ b'a' ∷ b'.' ∷ b'b' ∷ []

get_auth-Chops_example :
    FoundUpTo zone_b below_b (b'b' ∷ []) (get_auth soa_of_b below_b empty_soa 0)
get_auth-Chops_example =
    get_auth-Chops soa_of_b zone_b (λ d sd b. refl) below_b (b'b' ∷ []) empty_soa 0
      (chopped {e = b'b' ∷ []} start (unfold chop_off find in refl)) refl
