-- ===== src/Nsec/Bits.antt =====
-- Single bits in the type bitmaps of pdns/pdns/nsecrecords.cc.
use Prim.Native.Nat.{bit_or}
use mathlib.Core.Path.{ap₂}
use powerdns_improved_lua.Prelude.{
  ℕ, zero, suc, ◌+◌, ◌-◌, ◌/◌, ◌%◌, ◌^◌, ◌<◌, ◌≡◌, ◌≢◌, refl, sym, ap, ◌∙◌, inl, inr, Bool, true,
  false, not, ◌&&◌, ◌||◌, [], ◌∷◌, length, ltb, ◌==◌, arith, Bool-cases, set, get_or,
}
use powerdns_improved_lua.Name.{Bytes, AreBytes}
use powerdns_improved_lua.Wire.Writer.Records.{get_or-set_self, get_or-set_ne, length-set}
use powerdns_improved_lua.Nsec.{set_bit}

-- A bit of a number, counted from the lowest.
pub bit_at : ℕ → ℕ → Bool
bit_at zero val = val % 2 == 1
bit_at (suc k) val = bit_at k (val / 2)

pub bit_at_zero : (k : ℕ) → bit_at k 0 ≡ false
unfolding bit_at
bit_at_zero zero = refl
bit_at_zero (suc k) = bit_at_zero k

pub bit_at_shift :
    (k bit val : ℕ) → bit < k → bit_at (k - bit) val ≡ bit_at (k - (bit + 1)) (val / 2)
unfolding bit_at
bit_at_shift k bit val lt =
    let e : k - bit ≡ suc (k - (bit + 1)) = omega arith in ap (λ (j : ℕ). bit_at j val) e

pub bit_at_self : (k val : ℕ) → bit_at (k - k) val ≡ (val % 2 == 1)
unfolding bit_at
bit_at_self k val = let e : k - k ≡ zero = omega arith in ap (λ (j : ℕ). bit_at j val) e

same_bool : Bool → Bool → Bool
same_bool true b = b
same_bool false b = not b

same_bool_eq : (a b : Bool) → same_bool a b ≡ true → a ≡ b
unfolding same_bool
same_bool_eq a b h = ground arith

-- A test at every number below a bound, from below.
holds_below : (ℕ → Bool) → ℕ → Bool
holds_below p zero = true
holds_below p (suc n) = holds_below p n && p n

holds_below_at : (p : ℕ → Bool) (k n : ℕ) → k < n → holds_below p n ≡ true → p k ≡ true
unfolding holds_below
holds_below_at p k zero lt h = absurd (omega arith)
holds_below_at p k (suc n) lt h = ground (arith, holds_below_at p k n)

or_is_right : ℕ → ℕ → ℕ → Bool
or_is_right k j x =
    same_bool (bit_at j (bit_or x (2 ^ k))) (j == k || bit_at j x) && ltb (bit_or x (2 ^ k)) 256

or_table : holds_below (λ k. holds_below (λ j. holds_below (λ x. or_is_right k j x) 256) 8) 8 ≡ true
unfolding holds_below or_is_right same_bool bit_at
or_table = refl

-- `|=` with one bit, on a byte.
or_bit :
    (k j x : ℕ)
    → k < 8
    → j < 8
    → x < 256
    → (bit_at j (bit_or x (2 ^ k)) ≡ (j == k || bit_at j x)) × (bit_or x (2 ^ k) < 256)
or_bit k j x hk hj hx =
    let at_k = holds_below_at _ k 8 hk or_table in
    let at_j = holds_below_at _ j 8 hj at_k in
    let at_x = holds_below_at (λ (x : ℕ). or_is_right k j x) x 256 hx at_j in
    both (bit_at j (bit_or x (2 ^ k))) (j == k || bit_at j x) (bit_or x (2 ^ k))
      (unfold or_is_right in at_x)
  where
    both : (a b : Bool) (v : ℕ) → (same_bool a b && ltb v 256) ≡ true → (a ≡ b) × (v < 256)
    both a b v h = let s : same_bool a b ≡ true = ground arith in (same_bool_eq a b s, ground arith)

-- The bit of a type in the buffer.
unfoldable pub type_bit : ℕ → Bytes → Bool
type_bit u res = bit_at (7 - u % 8) (get_or res (2 + u / 8) 0)

AreBytes-get_or : (xs : Bytes) (i : ℕ) → AreBytes xs → get_or xs i 0 < 256
AreBytes-get_or [] i h = omega arith
AreBytes-get_or (x ∷ xs) zero (h, hs) = h
AreBytes-get_or (x ∷ xs) (suc i) (h, hs) = AreBytes-get_or xs i hs

AreBytes-set : (xs : Bytes) (i v : ℕ) → AreBytes xs → v < 256 → AreBytes (set xs i v)
AreBytes-set [] i v h k = tt
AreBytes-set (x ∷ xs) zero v (h, hs) k = (k, hs)
AreBytes-set (x ∷ xs) (suc i) v (h, hs) k = (h, AreBytes-set xs i v hs k)

pub set_bit_lem :
    (t u : ℕ) (res : Bytes)
    → t < 256
    → length res ≡ 34
    → AreBytes res
    → (type_bit u (set_bit t res) ≡ (u == t || type_bit u res))
      × (length (set_bit t res) ≡ 34)
      × AreBytes (set_bit t res)
      × (get_or (set_bit t res) 0 0 ≡ get_or res 0 0)
unfolding set_bit
set_bit_lem t u res h size bytes =
    let i = 2 + t / 8 in
    let old = get_or res i 0 in
    let new = bit_or old (2 ^ (7 - t % 8)) in
    let small = AreBytes-get_or res i bytes in
    let (bit, byte) = or_bit (7 - t % 8) (7 - u % 8) old (omega arith) (omega arith) small in
    (
      elim (Bool-cases (u / 8 == t / 8)) [
        | inl here ↦
            let e : 2 + u / 8 ≡ i = ground arith in
            let value = get_or-set_self res i new (omega arith) in
            unfold type_bit in
            (ap (λ (k : ℕ). bit_at (7 - u % 8) (get_or (set res i new) k 0)) e
              ∙ ap (bit_at (7 - u % 8)) value
              ∙ bit
              ∙ ap₂ ◌||◌ (same_place here)
                  (ap (λ (k : ℕ). bit_at (7 - u % 8) (get_or res k 0)) (sym e)))
        | inr there ↦
            let ne : i ≢ 2 + u / 8 = ground arith in
            let apart : (u == t) ≡ false = ground arith in
            unfold type_bit in
            (ap (bit_at (7 - u % 8)) (get_or-set_ne res i (2 + u / 8) new ne)
              ∙ sym (ap (λ (b : Bool). b || bit_at (7 - u % 8) (get_or res (2 + u / 8) 0)) apart))
      ],
      length-set res i new ∙ size,
      AreBytes-set res i new bytes byte,
      get_or-set_ne res i 0 new (omega arith),
    )
  where
    same_place : (u / 8 == t / 8) ≡ true → ((7 - u % 8) == (7 - t % 8)) ≡ (u == t)
    same_place here = elim (Bool-cases (u == t)) [
      | inl same ↦ ground arith
      | inr differ ↦ ground arith
    ]
