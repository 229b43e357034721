-- ===== src/Backend/Ueber/Draining.antt =====
-- All answers to a question that `UeberBackend` of pdns/pdns/ueberbackend.cc asks its backends.
use powerdns_improved_lua.Prelude.{
  ℕ, zero, suc, ◌+◌, ◌<◌, ◌≡◌, refl, ap, ◌∙◌, Bool, false, not, ◌&&◌, List, [], ◌∷◌, length, ◌==◌,
  if◌then◌else◌, none, some, arith, Bool-cases, inl, inr,
}
use powerdns_improved_lua.Prelude.Int.{pos, negsuc}
use powerdns_improved_lua.Name.{Bytes}
use powerdns_improved_lua.PacketCache.{◌==ℤ◌}
use powerdns_improved_lua.Backend.{ResourceRecord}
use powerdns_improved_lua.Backend.Soa.{Backend}
use powerdns_improved_lua.Backend.Ueber.{
  QuerySettings, Question, UeberBackend, unknown, cache_has, add_neg_cache, add_one_cache,
  ask_first, lookup, handle_get, get, get_all,
}

-- The answers of the first backend that has some, where the first to be asked has `hinter`.
abbrev pub first_answers : ℕ → Bytes → List ResourceRecord → List Backend → List ResourceRecord
first_answers qtype qname (rr ∷ hinter) others = rr ∷ hinter
first_answers qtype qname [] [] = []
first_answers qtype qname [] (next ∷ others) =
    first_answers qtype qname (next.lookup qtype qname (negsuc 0)) others

-- A state in the midst of the answers of one backend, with so many of them given.
abbrev pub reading : UeberBackend → List ResourceRecord → ℕ → ResourceRecord → UeberBackend
reading u hinter given last = record u {
  negcached = false;
  cached = false;
  hinter = hinter;
  others = [];
  ancount = given;
  lastrr = last;
}

-- What is cached of the answers to a question.
unfoldable pub remembered :
    QuerySettings → ℕ → Bool → Question → List ResourceRecord → UeberBackend → UeberBackend
remembered s now got_it q [] u =
    if not (length q.qname == 0) then add_neg_cache s now got_it q u else u
remembered s now got_it q (rr ∷ []) u = add_one_cache s now got_it q rr u
remembered s now got_it q (rr ∷ rr' ∷ answers) u = u

module _ (s : QuerySettings) (now : ℕ) (got_it : Bool) where
  get_all-reading :
      (u : UeberBackend) (xs : List ResourceRecord) (fuel given : ℕ) (last : ResourceRecord)
      → length xs < fuel
      → get_all fuel s now got_it (reading u xs (suc given) last) ≡ (
        xs,
        (let end = reading u [] (suc given + length xs) last in
            if given + length xs == 0 then add_one_cache s now got_it u.question last end else end),
      )
  unfolding get_all get handle_get
  get_all-reading u xs zero given last h = absurd (omega arith)
  get_all-reading u [] (suc fuel) given last h = ground arith
  get_all-reading u (x ∷ xs) (suc fuel) given last h =
      ground (arith, get_all-reading u xs fuel (suc given) last)

handle_get-none :
    (qtype : ℕ) (qname : Bytes) (hinter : List ResourceRecord) (others : List Backend)
    → first_answers qtype qname hinter others ≡ []
    → handle_get qtype qname hinter others ≡ (none, [], [])
unfolding handle_get
handle_get-none qtype qname [] [] h = refl
handle_get-none qtype qname [] (next ∷ others) h =
    handle_get-none qtype qname (next.lookup qtype qname (negsuc 0)) others h
handle_get-none qtype qname (rr ∷ hinter) others h = cc

handle_get-some :
    (qtype : ℕ) (qname : Bytes) (hinter : List ResourceRecord) (others : List Backend)
    (rr : ResourceRecord) (rest : List ResourceRecord)
    → first_answers qtype qname hinter others ≡ rr ∷ rest
    → handle_get qtype qname hinter others ≡ (some rr, rest, [])
unfolding handle_get
handle_get-some qtype qname [] [] rr rest h = cc
handle_get-some qtype qname [] (next ∷ others) rr rest h =
    handle_get-some qtype qname (next.lookup qtype qname (negsuc 0)) others rr rest h
handle_get-some qtype qname (r ∷ hinter) others rr rest h = cc

-- The state in which the first backend has been asked a question.
abbrev pub asked : Backend → List Backend → Question → UeberBackend → UeberBackend
asked first backends q u = record u {
  negcached = false;
  cached = false;
  hinter = first.lookup q.qtype q.qname q.zone_id;
  others = backends;
  handle_qtype = q.qtype;
  handle_qname = q.qname;
  question = q;
  ancount = 0;
}

module _ (s : QuerySettings) (now : ℕ) (got_it : Bool) where
  get-asked-none :
      (first : Backend) (backends : List Backend) (q : Question) (u : UeberBackend)
      → first_answers q.qtype q.qname (first.lookup q.qtype q.qname q.zone_id) backends ≡ []
      → ((get s now got_it (asked first backends q u)).0 ≡ none)
        × ((get s now got_it (asked first backends q u)).1.pc ≡ (remembered s now got_it q [] u).pc)
  unfolding get remembered add_neg_cache
  get-asked-none first backends q u h =
      let none_left =
        handle_get-none q.qtype q.qname (first.lookup q.qtype q.qname q.zone_id) backends h in
      ground arith

  get-asked-some :
      (first : Backend) (backends : List Backend) (q : Question) (u : UeberBackend)
      (rr : ResourceRecord) (rest : List ResourceRecord)
      → first_answers q.qtype q.qname (first.lookup q.qtype q.qname q.zone_id) backends ≡ rr ∷ rest
      → get s now got_it (asked first backends q u)
        ≡ (some rr, reading (asked first backends q u) rest 1 rr)
  unfolding get
  get-asked-some first backends q u rr rest h =
      let found =
        handle_get-some q.qtype q.qname (first.lookup q.qtype q.qname q.zone_id) backends rr rest
          h in
      rw (found, ap (λ t. t.1) found, ap (λ t. t.2) found)

  reading-remembered :
      (rest : List ResourceRecord) (first : Backend) (backends : List Backend) (q : Question)
      (u : UeberBackend) (rr : ResourceRecord)
      → (let end = reading (asked first backends q u) [] (1 + length rest) rr in
          if 0 + length rest == 0 then add_one_cache s now got_it q rr end else end).pc
        ≡ (remembered s now got_it q (rr ∷ rest) u).pc
  unfolding remembered add_one_cache
  reading-remembered [] first backends q u rr = ground arith
  reading-remembered (r ∷ rest) first backends q u rr = ground arith

  get_all-asked :
      (answers : List ResourceRecord) (fuel : ℕ) (first : Backend) (backends : List Backend)
      (q : Question) (u : UeberBackend)
      → first_answers q.qtype q.qname (first.lookup q.qtype q.qname q.zone_id) backends ≡ answers
      → length answers < fuel
      → ((get_all fuel s now got_it (asked first backends q u)).0 ≡ answers)
        × ((get_all fuel s now got_it (asked first backends q u)).1.pc
            ≡ (remembered s now got_it q answers u).pc)
  unfolding get_all
  get_all-asked answers zero first backends q u h k = absurd (omega arith)
  get_all-asked [] (suc fuel) first backends q u h k =
      let (a, b) = get-asked-none first backends q u h in ground arith
  get_all-asked (rr ∷ rest) (suc fuel) first backends q u h k =
      let one = get-asked-some first backends q u rr rest h in
      let more =
        get_all-reading s now got_it (asked first backends q u) rest fuel 0 rr (omega arith) in
      let end = reading-remembered rest first backends q u rr in ground arith

  -- The state when the cache is asked.
  abbrev pub begun : Backend → List Backend → Question → UeberBackend → UeberBackend
  begun first backends q u = record u {
    others = first ∷ backends;
    handle_qtype = q.qtype;
    handle_qname = q.qname;
    ancount = 0;
    question = q;
  }

  cache_has_keeps :
      (q : Question) (u : UeberBackend)
      → ((cache_has s now got_it q u).1.handle_qtype ≡ u.handle_qtype)
        × ((cache_has s now got_it q u).1.handle_qname ≡ u.handle_qname)
        × ((cache_has s now got_it q u).1.question ≡ u.question)
        × ((cache_has s now got_it q u).1.ancount ≡ u.ancount)
  unfolding cache_has
  cache_has_keeps q u = elim (Bool-cases ((s.negqueryttl ==ℤ pos 0) && (s.queryttl ==ℤ pos 0))) [
    | inl off ↦ ground arith
    | inr on ↦ ground arith
  ]

  ask_first-asked :
      (first : Backend) (backends : List Backend) (q : Question) (v : UeberBackend)
      → v.handle_qtype ≡ q.qtype
      → v.handle_qname ≡ q.qname
      → v.question ≡ q
      → v.ancount ≡ 0
      → ask_first first backends q (unknown, v) ≡ asked first backends q v
  unfolding ask_first
  ask_first-asked first backends q v type name question count = cc

  pub lookup-ask_first :
      (first : Backend) (backends : List Backend) (q : Question) (u : UeberBackend)
      → u.stale ≡ false
      → (lookup s (first ∷ backends) now got_it q u).1
        ≡ ask_first first backends q (cache_has s now got_it q (begun first backends q u))
  unfolding lookup
  lookup-ask_first first backends q u fresh = ground arith

  -- What `lookup` and the calls of `get` after it give, of a question that the cache does not know, by a
  -- backend that is not stale: all answers of the first backend that has some, with the zone only where
  -- that is the first of all; and what the cache takes of it, which is that there is none, the
  -- only answer, or nothing. More rounds than answers are enough.
  pub get_all-lookup :
      (fuel : ℕ) (first : Backend) (backends : List Backend) (q : Question) (u : UeberBackend)
      → u.stale ≡ false
      → (cache_has s now got_it q (begun first backends q u)).0 ≡ unknown
      → length (first_answers q.qtype q.qname (first.lookup q.qtype q.qname q.zone_id) backends)
        < fuel
      → (let u' = (lookup s (first ∷ backends) now got_it q u).1 in
          let answers =
            first_answers q.qtype q.qname (first.lookup q.qtype q.qname q.zone_id) backends in
          ((get_all fuel s now got_it u').0 ≡ answers)
          × ((get_all fuel s now got_it u').1.pc
              ≡ (remembered s now got_it q answers
                  (cache_has s now got_it q (begun first backends q u)).1).pc))
  get_all-lookup fuel first backends q u fresh miss enough =
      let asking = cache_has s now got_it q (begun first backends q u) in
      let (a, b, c, d) = cache_has_keeps q (begun first backends q u) in
      let state : (lookup s (first ∷ backends) now got_it q u).1 ≡ asked first backends q asking.1 =
        lookup-ask_first first backends q u fresh
        ∙ ap (λ st. ask_first first backends q (st, asking.1)) miss
        ∙ ask_first-asked first backends q asking.1 a b c d in
      let (found, kept) = get_all-asked _ fuel first backends q asking.1 refl enough in
      (
        ap (λ v. (get_all fuel s now got_it v).0) state ∙ found,
        ap (λ v. (get_all fuel s now got_it v).1.pc) state ∙ kept,
      )
