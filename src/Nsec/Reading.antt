-- ===== src/Nsec/Reading.antt =====
-- The types that the loops of `NSECRecordContent::DNSRecordContent` in pdns/pdns/nsecrecords.cc find
-- in a bitmap.
use powerdns_improved_lua.Prelude.{
  ℕ, zero, suc, ◌+◌, ◌-◌, ◌*◌, ◌/◌, ◌%◌, ◌<◌, ◌≡◌, refl, ap, ◌∙◌, inl, inr, Bool, false, ◌&&◌, ◌||◌,
  List, [], ◌∷◌, leb, ltb, ◌==◌, arith, Bool-cases, get_or,
}
use powerdns_improved_lua.Name.{Bytes}
use powerdns_improved_lua.RecursorCache.Range.{contains}
use powerdns_improved_lua.Nsec.{insert, read_bits, read_bytes}
use powerdns_improved_lua.Nsec.Bits.{bit_at, bit_at_zero, bit_at_shift, bit_at_self}

contains-insert :
    (u t : ℕ) (types : List ℕ) → contains u (insert t types) ≡ (u == t || contains u types)
unfolding insert
contains-insert u t [] = refl
contains-insert u t (v ∷ types) = ground (arith, contains-insert u t types)

-- What the loop over the bits from `bit` on finds.
here : ℕ → ℕ → ℕ → ℕ → Bool
here u n bit val = u / 8 == n && (leb bit (7 - u % 8) && bit_at (7 - u % 8 - bit) val)

here_step :
    (u n bit val : ℕ)
    → bit < 8
    → here u n bit val
      ≡ (((u == 7 - bit + 8 * n) && (val % 2 == 1)) || here u n (bit + 1) (val / 2))
unfolding here
here_step u n bit val lt = elim (Bool-cases (ltb bit (7 - u % 8))) [
  | inl below ↦
      let more : bit < 7 - u % 8 = ground arith in
      let apart : (u == 7 - bit + 8 * n) ≡ false = ground arith in
      ground (arith, bit_at_shift (7 - u % 8) bit val more, apart)
  | inr above ↦ elim (Bool-cases (bit == 7 - u % 8)) [
    | inl same ↦
        let e : bit ≡ 7 - u % 8 = ground arith in
        let agree : (u == 7 - bit + 8 * n) ≡ (u / 8 == n) = elim (Bool-cases (u / 8 == n)) [
          | inl row ↦ ground arith
          | inr other ↦ ground arith
        ] in
        ground
          (arith, bit_at_self (7 - u % 8) val, ap (λ (j : ℕ). bit_at (7 - u % 8 - j) val) e, agree)
    | inr differ ↦
        let apart : (u == 7 - bit + 8 * n) ≡ false = ground arith in ground (arith, apart)
  ]
]

contains-read_bits :
    (left n bit val : ℕ) (types : List ℕ) (u : ℕ)
    → bit + left ≡ 8
    → contains u (read_bits left n bit val types) ≡ (contains u types || here u n bit val)
unfolding read_bits
contains-read_bits zero n bit val types u h = unfold here in ground arith
contains-read_bits (suc left) n bit val types u h =
    let t = 7 - bit + 8 * n in
    contains-read_bits left n (bit + 1) (val / 2) _ u (omega arith)
    ∙ ground (arith, contains-insert u t types, here_step u n bit val)

row_step :
    (n val u : ℕ) (bytes : Bytes)
    → (here u n 0 val
        || (leb (n + 1) (u / 8) && bit_at (7 - u % 8) (get_or bytes (u / 8 - (n + 1)) 0)))
      ≡ (leb n (u / 8) && bit_at (7 - u % 8) (get_or (val ∷ bytes) (u / 8 - n) 0))
unfolding here
row_step n val u bytes = elim (Bool-cases (ltb n (u / 8))) [
  | inl below ↦
      let e : u / 8 - n ≡ suc (u / 8 - (n + 1)) = ground arith in
      ground (arith, ap (λ (i : ℕ). get_or (val ∷ bytes) i 0) e)
  | inr above ↦ elim (Bool-cases (u / 8 == n)) [
    | inl same ↦
        let e : u / 8 - n ≡ 0 = ground arith in
        ground (arith, ap (λ (i : ℕ). get_or (val ∷ bytes) i 0) e)
    | inr differ ↦ ground arith
  ]
]

contains-read_bytes :
    (n : ℕ) (bytes : Bytes) (types : List ℕ) (u : ℕ)
    → contains u (read_bytes n bytes types)
      ≡ (contains u types || (leb n (u / 8) && bit_at (7 - u % 8) (get_or bytes (u / 8 - n) 0)))
unfolding read_bytes
contains-read_bytes n [] types u = ground (arith, bit_at_zero (7 - u % 8))
contains-read_bytes n (val ∷ bytes) types u =
    contains-read_bytes (n + 1) bytes _ u
    ∙ ground (arith, contains-read_bits 8 n 0 val types u refl, row_step n val u bytes)

pub contains-read_all :
    (bytes : Bytes) (u : ℕ)
    → contains u (read_bytes 0 bytes []) ≡ bit_at (7 - u % 8) (get_or bytes (u / 8) 0)
contains-read_all bytes u =
    let e : u / 8 - 0 ≡ u / 8 = omega arith in
    contains-read_bytes 0 bytes [] u ∙ ground (arith, ap (λ (i : ℕ). get_or bytes i 0) e)
