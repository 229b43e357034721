-- ===== src/Backend/Ueber.antt =====
-- `UeberBackend` of pdns/pdns/ueberbackend.cc: a question goes to the backends in turn, with the query
-- cache in front of them. The backends answer as functions; the one that is being asked is kept as the
-- answers that it still has, and the index of the next one as the list of the backends from it on.
pub mod Draining
pub mod Cached
use powerdns_improved_lua.Prelude.{
  ℕ, zero, suc, ◌+◌, ◌%◌, ◌^◌, Bool, true, false, not, ◌&&◌, List, [], ◌∷◌, length, ◌==◌,
  if◌then◌else◌, Option, none, some,
}
use powerdns_improved_lua.Prelude.Int.{ℤ, pos, negsuc}
use powerdns_improved_lua.Name.{Bytes}
use powerdns_improved_lua.PacketCache.{
  PacketCache, Settings, querycache, get_entry, insert_entry, to_unsigned, ◌==ℤ◌,
}
use powerdns_improved_lua.Backend.{ResourceRecord, serialize, un_serialize}
use powerdns_improved_lua.Backend.Soa.{
  SoaData, SoaSettings, Db, skip_cache, null, live, Backend, fill_soa_data, serialize_soa_data,
}
use powerdns_improved_lua.Backend.Soa as Soa

-- "negquery-cache-ttl" and "query-cache-ttl", and what the packet cache is set to.
pub record QuerySettings : Type 0 where
  pub negqueryttl : ℤ
  pub queryttl : ℤ
  pub cache : Settings

pub record Question : Type 0 where
  pub qtype : ℕ
  pub qname : Bytes
  pub zone_id : ℤ

pub record UeberBackend : Type 0 where
  pub pc : PacketCache
  pub qcachehit : ℕ
  pub qcachemiss : ℕ
  pub stale : Bool
  pub question : Question
  pub answer : ResourceRecord
  pub negcached : Bool
  pub cached : Bool
  pub ancount : ℕ
  pub lastrr : ResourceRecord
  pub handle_qtype : ℕ
  pub handle_qname : Bytes
  pub hinter : List ResourceRecord
  pub others : List Backend

-- -1, 0 and 1 of `cacheHas`.
pub data CacheStatus : Type 0 where
  unknown : CacheStatus
  negative : CacheStatus
  positive : CacheStatus

abbrev pub missed : UeberBackend → UeberBackend
missed u = record u { qcachemiss = (u.qcachemiss + 1) % 2 ^ 32 }

-- `cacheHas`, into `answer`, as both callers have it.
unfoldable pub cache_has :
    QuerySettings → ℕ → Bool → Question → UeberBackend → CacheStatus × UeberBackend
cache_has s now got_it q u =
    let (entry, pc) =
      get_entry s.cache now got_it
        (record {
          qname = q.qname;
          qtype = q.qtype;
          ctype = querycache;
          zone_id = q.zone_id;
          merits_recursion = false;
        })
        u.pc in
    let u' : UeberBackend = record u { pc = pc } in
    let hit : UeberBackend = record u' { qcachehit = (u.qcachehit + 1) % 2 ^ 32 } in
    let looked_up : CacheStatus × UeberBackend = elim entry [
      | none ↦ (unknown, missed u')
      | some content ↦
          if length content == 0
          then (negative, hit)
          else (positive, record hit { answer = un_serialize u.answer content })
    ] in
    if (s.negqueryttl ==ℤ pos 0) && (s.queryttl ==ℤ pos 0) then (unknown, missed u) else looked_up

unfoldable pub add_neg_cache : QuerySettings → ℕ → Bool → Question → UeberBackend → UeberBackend
add_neg_cache s now got_it q u = if s.negqueryttl ==ℤ pos 0 then u else record u {
  pc =
      insert_entry s.cache now got_it q.qname q.qtype querycache [] (to_unsigned s.negqueryttl)
        q.zone_id false u.pc;
}

unfoldable pub add_one_cache :
    QuerySettings → ℕ → Bool → Question → ResourceRecord → UeberBackend → UeberBackend
add_one_cache s now got_it q rr u = if s.queryttl ==ℤ pos 0 then u else record u {
  pc =
      insert_entry s.cache now got_it q.qname q.qtype querycache (serialize rr)
        (to_unsigned s.queryttl) q.zone_id false u.pc;
}

-- What `lookup` does with the word of the cache: the first backend is asked where it has none.
unfoldable pub ask_first :
    Backend → List Backend → Question → CacheStatus × UeberBackend → UeberBackend
ask_first first backends q (unknown, u) = record u {
  negcached = false;
  cached = false;
  hinter = first.lookup q.qtype q.qname q.zone_id;
  others = backends;
}
ask_first first backends q (negative, u) = record u { negcached = true; cached = false }
ask_first first backends q (positive, u) = record u { negcached = false; cached = true }

-- `lookup`, after the word to go: false where it throws that it is stale.
unfoldable pub lookup :
    QuerySettings → List Backend → ℕ → Bool → Question → UeberBackend → Bool × UeberBackend
lookup s [] now got_it q u =
    let u' : UeberBackend = record u {
      others = [];
      handle_qtype = q.qtype;
      handle_qname = q.qname;
      ancount = 0;
      stale = true;
    } in
    if u.stale then (false, u) else (false, u')
lookup s (first ∷ backends) now got_it q u =
    let u' : UeberBackend = record u {
      others = first ∷ backends;
      handle_qtype = q.qtype;
      handle_qname = q.qname;
      ancount = 0;
      question = q;
    } in
    if u.stale then (false, u) else (true, ask_first first backends q (cache_has s now got_it q u'))

-- `handle::get`: the record, and what is left of the answers and of the backends. A backend after the
-- first is asked without the zone.
unfoldable pub handle_get :
    ℕ
    → Bytes
    → List ResourceRecord
    → List Backend
    → Option ResourceRecord × List ResourceRecord × List Backend
handle_get qtype qname [] [] = (none, [], [])
handle_get qtype qname [] (next ∷ others) =
    handle_get qtype qname (next.lookup qtype qname (negsuc 0)) others
handle_get qtype qname (rr ∷ hinter) others = (some rr, hinter, [])

unfoldable pub get : QuerySettings → ℕ → Bool → UeberBackend → Option ResourceRecord × UeberBackend
get s now got_it u =
    let (found, hinter, others) = handle_get u.handle_qtype u.handle_qname u.hinter u.others in
    let u' : UeberBackend = record u { hinter = hinter; others = others } in
    let neg =
      if u.ancount == 0 && not (length u.handle_qname == 0)
      then add_neg_cache s now got_it u.question u'
      else u' in
    let out_of_answers =
      if u.ancount == 1 then add_one_cache s now got_it u.question u.lastrr neg else neg in
    let looked_up : Option ResourceRecord × UeberBackend = elim found [
      | none ↦ (none, out_of_answers)
      | some rr ↦ (
        some rr,
        record u' { lastrr = if u.ancount == 0 then rr else u.lastrr; ancount = u.ancount + 1 },
      )
    ] in
    if u.negcached
    then (none, u)
    else if u.cached
    then (some u.answer, record u { negcached = true })
    else looked_up

-- `while(B.get(rr))`, for so many rounds at most.
unfoldable pub get_all :
    ℕ → QuerySettings → ℕ → Bool → UeberBackend → List ResourceRecord × UeberBackend
get_all zero s now got_it u = ([], u)
get_all (suc fuel) s now got_it u =
    let (found, u') = get s now got_it u in
    let (more, u'') = get_all fuel s now got_it u' in
    elim found [ none ↦ ([], u') | some rr ↦ (rr ∷ more, u'') ]

-- The loop of `getSOA` on the backends; the record of the zone that it caches is made of a new one.
unfoldable pub soa_of : SoaSettings → Bytes → List Backend → SoaData → Bool × SoaData
soa_of settings domain [] sd = (false, sd)
soa_of settings domain (b ∷ backends) sd =
    let (found, sd') = Soa.get_soa settings b domain sd in
    let rest = soa_of settings domain backends sd' in if found then (true, sd') else rest

-- The record of `getSOA`, in one that is new: class 1, priority 0, in the answer.
unfoldable pub soa_record : ResourceRecord → Bytes → SoaData → ResourceRecord
soa_record new domain sd = record new {
  qclass = 1;
  wildcardname = [];
  priority = 0;
  d_place = 1;
  qname = domain;
  qtype = 6;
  content = serialize_soa_data sd;
  ttl = sd.ttl;
  domain_id = sd.domain_id;
}

-- `getSOA`; `new` is what the members of a new record hold that its constructor does not set.
unfoldable pub get_soa :
    QuerySettings
    → SoaSettings
    → ResourceRecord
    → List Backend
    → ℕ
    → Bool
    → Bytes
    → SoaData
    → UeberBackend
    → Bool × SoaData × UeberBackend
get_soa s settings new backends now got_it domain sd u =
    let q : Question = record { qtype = 6; qname = domain; zone_id = negsuc 0 } in
    let asked : UeberBackend → Bool × SoaData × UeberBackend = λ v.
      (let (found, sd') = soa_of settings domain backends sd in
        if found
        then (true, sd', add_one_cache s now got_it q (soa_record new domain sd') v)
        else (false, sd', add_neg_cache s now got_it q v)) in
    let u' : UeberBackend = record u { question = q } in
    let (status, u'') = cache_has s now got_it q u' in
    let cached : SoaData = record (fill_soa_data settings u''.answer.content sd) {
      domain_id = u''.answer.domain_id;
      ttl = u''.answer.ttl;
      db = null;
    } in
    elim sd.db [
      | skip_cache ↦ asked u'
      | null ↦ elim status [
        | unknown ↦ asked u''
        | negative ↦ (false, sd, u'')
        | positive ↦ (true, cached, u'')
      ]
      | live ↦ elim status [
        | unknown ↦ asked u''
        | negative ↦ (false, sd, u'')
        | positive ↦ (true, cached, u'')
      ]
    ]
