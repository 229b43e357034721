-- ===== src/Handler.antt =====
-- How the authoritative server's question handler (pdns/pdns/packethandler.cc) walks up from a name: to
-- the zone that it stands in, to a delegation, and to a wildcard. The backend that it asks, of a state
-- of its own, is a parameter: `getSOA`, and a `lookup` with all calls of `get` after it.
pub mod Auth
use powerdns_improved_lua.Prelude.{
  ℕ, zero, suc, ◌+◌, Bool, true, false, not, ◌&&◌, ◌||◌, List, [], ◌∷◌, ◌++◌, length, ◌==◌,
  if◌then◌else◌, Option, none, some,
}
use powerdns_improved_lua.Prelude.Int.{ℤ}
use powerdns_improved_lua.Name.{Bytes}
use powerdns_improved_lua.Text.{chop_off}
use powerdns_improved_lua.Backend.{ResourceRecord, same_bytes}
use powerdns_improved_lua.Backend.Soa.{SoaData}

module _ {S : Type 0} (backend_get_soa : Bytes → SoaData → S → Bool × SoaData × S) where
  -- The loop of `getAuth`; the zone is that of the data.
  unfoldable pub get_auth_loop : ℕ → Bytes → SoaData → S → Bool × SoaData × S
  get_auth_loop zero subdomain sd b = (false, sd, b)
  get_auth_loop (suc fuel) subdomain sd b =
      let (found, sd', b') = backend_get_soa subdomain sd b in
      let (more, shorter) = chop_off subdomain in
      let rest = get_auth_loop fuel shorter sd' b' in
      if found
      then (true, record sd' { qname = subdomain }, b')
      else if more
      then rest
      else (false, sd', b')

  -- `getAuth`: each round but the last takes one character off the name at least.
  unfoldable pub get_auth : Bytes → SoaData → S → Bool × SoaData × S
  get_auth target sd b = get_auth_loop (suc (length target)) target sd b

-- The records of `getBestReferralNS` that a backend is not authoritative for.
unfoldable pub referring : List ResourceRecord → List ResourceRecord
referring [] = []
referring (rr ∷ records) = let rest = referring records in if not rr.auth then rr ∷ rest else rest

-- The records of `getBestWildcard` of the type that is asked for, and CNAMEs.
unfoldable pub fitting : ℕ → List ResourceRecord → List ResourceRecord
fitting qtype [] = []
fitting qtype (rr ∷ records) =
    let rest = fitting qtype records in
    if rr.qtype == qtype || rr.qtype == 5 then rr ∷ rest else rest

module _ {S : Type 0} (backend_get_all : ℕ → Bytes → ℤ → S → List ResourceRecord × S) where
  unfoldable pub referral_loop : ℕ → SoaData → Bytes → S → List ResourceRecord × S
  referral_loop zero sd subdomain b = ([], b)
  referral_loop (suc fuel) sd subdomain b =
      let (records, b') = backend_get_all 2 subdomain sd.domain_id b in
      let ret = referring records in
      let (more, shorter) = chop_off subdomain in
      let rest = referral_loop fuel sd shorter b' in
      if same_bytes subdomain sd.qname
      then ([], b)
      else if not (length ret == 0)
      then (ret, b')
      else if more
      then rest
      else ([], b')

  unfoldable pub get_best_referral_ns : SoaData → Bytes → S → List ResourceRecord × S
  get_best_referral_ns sd target b = referral_loop (suc (length target)) sd target b

  unfoldable pub wildcard_loop : ℕ → ℕ → SoaData → Bytes → S → List ResourceRecord × S
  wildcard_loop zero qtype sd subdomain b = ([], b)
  wildcard_loop (suc fuel) qtype sd subdomain b =
      let (more, shorter) = chop_off subdomain in
      let (records, b') = backend_get_all 255 (b'*' ∷ b'.' ∷ shorter) sd.domain_id b in
      let ret = fitting qtype records in
      let rest = wildcard_loop fuel qtype sd shorter b' in
      if not more
      then ([], b)
      else if not (length ret == 0)
      then (ret, b')
      else if same_bytes shorter sd.qname
      then ([], b')
      else rest

  -- `getBestWildcard`, for a question of the given type.
  unfoldable pub get_best_wildcard : ℕ → SoaData → Bytes → S → List ResourceRecord × S
  get_best_wildcard qtype sd target b = wildcard_loop (suc (length target)) qtype sd target b
