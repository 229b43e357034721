-- ===== src/Throttle.antt =====
-- `Throttle` of pdns/pdns/syncres.hh: which servers and questions the recursor leaves alone for a
-- while. The std::map is a list of pairs, of which a key's first counts.
pub mod Map
pub mod Blocks
use powerdns_improved_lua.Prelude.{
  ℕ, suc, zero, ◌+◌, Bool, true, false, not, ◌||◌, List, [], ◌∷◌, ltb, ◌==◌, if◌then◌else◌, Option,
  none, some,
}
use powerdns_improved_lua.Prelude.Int.{ℤ, pos, negsuc, ltb_ℤ, ◌-ℤ◌, to_int32}
use mathlib.Core.Logic.{ite}

-- `count` is an int and goes below 0.
pub record Entry : Type 0 where
  pub ttd : ℕ
  pub count : ℤ

pub record Throttle (Thing : Type 0) : Type 0 where
  pub limit : ℕ
  pub ttl : ℕ
  pub last_clean : ℕ
  pub cont : List (Thing × Entry)

-- The constructor, at its time.
unfoldable pub new_throttle : {Thing : Type 0} → ℕ → Throttle Thing
new_throttle now = record { limit = 3; ttl = 60; last_clean = now; cont = [] }

-- The loop that takes out what is past its time.
unfoldable pub clean : {Thing : Type 0} → ℕ → List (Thing × Entry) → List (Thing × Entry)
clean now [] = []
clean now ((k, e) ∷ cont) =
    let rest = clean now cont in if ltb e.ttd now then rest else (k, e) ∷ rest

module _ {Thing : Type 0} (dec : Discrete Thing) where
  unfoldable pub find : Thing → List (Thing × Entry) → Option Entry
  find t [] = none
  find t ((k, e) ∷ cont) = let rest = find t cont in ite (dec k t) (some e) rest

  unfoldable pub erase : Thing → List (Thing × Entry) → List (Thing × Entry)
  erase t [] = []
  erase t ((k, e) ∷ cont) = let rest = erase t cont in ite (dec k t) rest ((k, e) ∷ rest)

  -- `d_cont[t] = e`.
  unfoldable pub assign : Thing → Entry → List (Thing × Entry) → List (Thing × Entry)
  assign t e [] = (t, e) ∷ []
  assign t e ((k, f) ∷ cont) =
      let rest = assign t e cont in ite (dec k t) ((k, e) ∷ cont) ((k, f) ∷ rest)

  unfoldable pub tidy : ℕ → Throttle Thing → Throttle Thing
  tidy now th =
      if ltb (th.last_clean + 300) now
      then record th { last_clean = now; cont = clean now th.cont }
      else th

  -- The test lowers the count, unless the time is up.
  unfoldable pub should_throttle : ℕ → Thing → Throttle Thing → Bool × Throttle Thing
  should_throttle now t throttle =
      let th = tidy now throttle in
      elim (find t th.cont) [
        | none ↦ (false, th)
        | some e ↦
            if ltb e.ttd now || ltb_ℤ e.count (pos 0)
            then (true, record th { cont = erase t th.cont })
            else (
              true,
              record th { cont = assign t (record e { count = e.count -ℤ pos 1 }) th.cont },
            )
      ]

  -- The unsigned number of tries becomes an int.
  unfoldable pub throttle : ℕ → Thing → ℕ → ℕ → Throttle Thing → Throttle Thing
  throttle now t ttl tries th =
      let e : Entry = record {
        ttd = now + (if ttl == 0 then th.ttl else ttl);
        count = to_int32 (if tries == 0 then th.limit else tries);
      } in
      let stored = record th { cont = assign t e th.cont } in
      elim (find t th.cont) [
        | none ↦ stored
        | some i ↦ if ltb e.ttd i.ttd || ltb_ℤ i.count e.count then stored else th
      ]
