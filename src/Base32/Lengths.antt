-- ===== src/Base32/Lengths.antt =====
-- How long the text of `toBase32Hex` of pdns/pdns/base32.cc is.
use powerdns_improved_lua.Prelude.{
  ℕ, zero, suc, ◌+◌, ◌-◌, ◌*◌, ◌/◌, ◌<◌, ◌≤◌, ◌≡◌, refl, ap, inl, inr, ◌++◌, length, replicate,
  drop, arith, length-append, length-replicate, length-drop, ◌==◌, Bool-cases,
}
use powerdns_improved_lua.Name.{Bytes}
use powerdns_improved_lua.Base32.{stuffing_of, digits_from, to_loop, to_base32_hex}

length-digits_from : (n more : ℕ) (group : Bytes) → length (digits_from n more group) ≡ more
unfolding digits_from
length-digits_from n zero group = refl
length-digits_from n (suc more) group = ap suc (length-digits_from (n + 1) more group)

stuffing_small : (todo : ℕ) → stuffing_of todo ≤ 8
unfolding stuffing_of
stuffing_small todo = ground arith

length_group :
    (stuffing : ℕ) (group rest : Bytes)
    → stuffing ≤ 8
    → length (digits_from 0 (8 - stuffing) group ++ (replicate stuffing b'=' ++ rest))
      ≡ 8 + length rest
length_group stuffing group rest h = omega (
  arith,
  length-append (digits_from 0 (8 - stuffing) group) (replicate stuffing b'=' ++ rest),
  length-append (replicate stuffing b'=') rest,
  length-digits_from 0 (8 - stuffing) group,
  length-replicate {A = ℕ} stuffing b'=',
)

length-to_loop :
    (fuel : ℕ) (input : Bytes)
    → length input ≤ fuel
    → length (to_loop fuel input) ≡ (length input + 4) / 5 * 8
unfolding to_loop
length-to_loop zero input h = omega arith
length-to_loop (suc fuel) input h =
    let group =
      length_group (stuffing_of (length input)) input (to_loop fuel (drop 5 input))
        (stuffing_small (length input)) in
    let shorter = length-drop 5 input in
    elim (Bool-cases (length input == 0)) [
      | inl e ↦ ground arith
      | inr e ↦
          let some_left : 0 < length input = ground arith in
          let rest = length-to_loop fuel (drop 5 input) (omega arith) in
          let count : 8 + (length (drop 5 input) + 4) / 5 * 8 ≡ (length input + 4) / 5 * 8 =
            omega arith in
          ground arith
    ]

-- Every group of five bytes, the last that is begun included, is eight digits with its padding.
pub length-to_base32_hex :
    (input : Bytes) → length (to_base32_hex input) ≡ (length input + 4) / 5 * 8
unfolding to_base32_hex
length-to_base32_hex input = length-to_loop (length input) input (omega arith)
