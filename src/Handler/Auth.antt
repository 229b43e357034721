-- ===== src/Handler/Auth.antt =====
-- The zone that `getAuth` of pdns/pdns/packethandler.cc finds for a name.
use powerdns_improved_lua.Prelude.{
  ℕ, zero, suc, ◌<◌, ◌≤◌, ◌≡◌, refl, sym, ap, ◌∙◌, ◌⊎◌, inl, inr, Bool, true, false, length, arith,
  Bool-cases,
}
use mathlib.Core.Path.{subst}
use powerdns_improved_lua.Name.{Bytes}
use powerdns_improved_lua.Text.{chop_off}
use powerdns_improved_lua.Text.Chop.{Chops, start, chopped, Chops-more, chop_off_shorter}
use powerdns_improved_lua.Backend.Soa.{SoaData}
use powerdns_improved_lua.Handler.{get_auth_loop, get_auth}

Chops-length : {d e : Bytes} → Chops d e → length e ≤ length d
Chops-length start = omega arith
Chops-length {d} {e} (chopped {d = m} r k) = omega (arith, Chops-length r, chop_off_shorter m e k)

Chops-first :
    {d e : Bytes} → Chops d e → (e ≡ d) ⊎ ((m : Bytes) × (chop_off d ≡ (true, m)) × Chops m e)
Chops-first start = inl refl
Chops-first {d} {e} (chopped {d = m} r k) = elim (Chops-first r) [
  | inl same ↦ inr (e, ap chop_off (sym same) ∙ k, start)
  | inr (n, first, rest) ↦ inr (n, first, chopped rest k)
]

-- The zone that a walk found is one of the names on the way, the backend has it, and it is as long
-- as a name d at least.
abbrev pub FoundUpTo : {S : Type 0} → (Bytes → Bool) → Bytes → Bytes → Bool × SoaData × S → Type 0
FoundUpTo has target d result =
    (result.0 ≡ true)
    × Chops target result.1.qname
    × (has result.1.qname ≡ true)
    × (length d ≤ length result.1.qname)

module _ {S : Type 0} (backend_get_soa : Bytes → SoaData → S → Bool × SoaData × S)
    (has : Bytes → Bool)
    (decided : (d : Bytes) (sd : SoaData) (b : S) → (backend_get_soa d sd b).0 ≡ has d) where
  loop_at :
      (fuel : ℕ) (sub : Bytes) (sd : SoaData) (b : S)
      → has sub ≡ true
      → ((get_auth_loop backend_get_soa (suc fuel) sub sd b).0 ≡ true)
        × ((get_auth_loop backend_get_soa (suc fuel) sub sd b).1.qname ≡ sub)
  unfolding get_auth_loop
  loop_at fuel sub sd b h = ground (arith, decided sub sd b)

  loop_past :
      (fuel : ℕ) (sub m : Bytes) (sd : SoaData) (b : S)
      → has sub ≡ false
      → chop_off sub ≡ (true, m)
      → get_auth_loop backend_get_soa (suc fuel) sub sd b
        ≡ get_auth_loop backend_get_soa fuel m
            (backend_get_soa sub sd b).1
            (backend_get_soa sub sd b).2
  unfolding get_auth_loop
  loop_past fuel sub m sd b h k = rw (decided sub sd b, h, ap (λ t. t.0) k, ap (λ t. t.1) k)

  loop-found :
      (fuel : ℕ) (sub d : Bytes) (sd : SoaData) (b : S)
      → length sub < fuel
      → Chops sub d
      → has d ≡ true
      → FoundUpTo has sub d (get_auth_loop backend_get_soa fuel sub sd b)
  loop-found zero sub d sd b small way there = absurd (omega arith)
  loop-found (suc fuel) sub d sd b small way there = elim (Bool-cases (has sub)) [
    | inl h ↦
        let (found, name) = loop_at fuel sub sd b h in
        let short = Chops-length way in
        (
          found,
          subst (λ n. Chops sub n) (sym name) start,
          ap has name ∙ h,
          subst (λ n. length d ≤ length n) (sym name) short,
        )
    | inr h ↦ elim (Chops-first way) [
      | inl same ↦ absurd (let clash : ⊥ = ground (arith, ap has same) in clash)
      | inr (m, first, rest) ↦
          let step = loop_past fuel sub m sd b h first in
          let (found, on_way, has_it, long) =
            loop-found fuel m d (backend_get_soa sub sd b).1 (backend_get_soa sub sd b).2
              (omega (arith, chop_off_shorter sub m first)) rest there in
          subst (λ r. FoundUpTo has sub d r) (sym step)
            (found, Chops-more first on_way, has_it, long)
    ]
  ]

  -- Where whether the backend has a SOA record for a name does not depend on its state and the
  -- data that is filled, and it has one for a name d that repeated `chopOff` of the target comes
  -- to: `getAuth` finds a zone, which is a name that the walk comes to and that the backend has,
  -- and that is no shorter than d.
  pub get_auth-Chops :
      (target d : Bytes) (sd : SoaData) (b : S)
      → Chops target d
      → has d ≡ true
      → FoundUpTo has target d (get_auth backend_get_soa target sd b)
  unfolding get_auth
  get_auth-Chops target d sd b way there =
      loop-found (suc (length target)) target d sd b (omega arith) way there
