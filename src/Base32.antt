-- ===== src/Base32.antt =====
-- base32 with the extended hexadecimal alphabet: pdns/pdns/base32.cc.
pub mod Lengths
use Prim.Native.Nat.{bit_or}
use powerdns_improved_lua.Prelude.{
  ℕ, zero, suc, ◌+◌, ◌-◌, ◌*◌, ◌/◌, ◌%◌, ◌^◌, Bool, true, false, ◌&&◌, ◌||◌, List, [], ◌∷◌, ◌++◌,
  length, get_or, set, take, drop, replicate, ltb, leb, ◌==◌, if◌then◌else◌, Option, none, some,
}
use powerdns_improved_lua.Name.{Bytes}

-- Behind the end of the input the source reads up to two bytes of other memory; their bits are shifted
-- out or masked, and they are 0 here.
unfoldable pub extract_bits : Bytes → ℕ → ℕ → ℕ
extract_bits s start size =
    let cl = get_or s (start / 8) 0 in
    let cc = get_or s (start / 8 + 1) 0 in
    let cr = get_or s (start / 8 + 2) 0 in
    let x = (cl * 256 + cc) * 256 + cr in x / 2 ^ (24 - (size + start % 8)) % 2 ^ size

-- `s[i] |= c`.
unfoldable pub or_at : Bytes → ℕ → ℕ → Bytes
or_at s i c = set s i (bit_or (get_or s i 0) c)

unfoldable pub set_bits : Bytes → ℕ → ℕ → ℕ → Bytes
set_bits s x start size =
    let shift = (8 - (start + size) % 8) % 8 in
    let y = x * 2 ^ shift in
    let cl = y / 2 ^ 16 % 256 in
    let cc = y / 2 ^ 8 % 256 in
    let cr = y % 256 in
    if ltb 16 (shift + size)
    then or_at (or_at (or_at s (start / 8) cl) (start / 8 + 1) cc) (start / 8 + 2) cr
    else if ltb 8 (shift + size)
    then or_at (or_at s (start / 8) cc) (start / 8 + 1) cr
    else or_at s (start / 8) cr

-- The value of a digit; none is the -1, and the "=" of the padding is its own value.
unfoldable pub unbase32hex : ℕ → Option ℕ
unbase32hex c =
    if leb b'0' c && leb c b'9'
    then some (c - b'0')
    else if leb b'a' c && leb c b'z'
    then some (10 + (c - b'a'))
    else if leb b'A' c && leb c b'Z'
    then some (10 + (c - b'A'))
    else if c == b'='
    then some b'='
    else none

-- The digit with the given value.
unfoldable pub base32hex : ℕ → ℕ
base32hex v = if ltb v 10 then b'0' + v else if ltb v 32 then b'A' + (v - 10) else b'='

unfoldable pub stuffing_of : ℕ → ℕ
stuffing_of todo =
    if todo == 1
    then 6
    else if todo == 2
    then 4
    else if todo == 3
    then 3
    else if todo == 4
    then 1
    else 0

-- The digits of a group, from the n-th on.
unfoldable pub digits_from : ℕ → ℕ → Bytes → Bytes
digits_from n zero group = []
digits_from n (suc more) group =
    base32hex (extract_bits group (n * 5) 5) ∷ digits_from (n + 1) more group

-- The loop over the groups, on what is left of the input: each takes five bytes of it, or the rest.
unfoldable pub to_loop : ℕ → Bytes → Bytes
to_loop zero input = []
to_loop (suc fuel) input =
    let stuffing = stuffing_of (length input) in
    let rest = to_loop fuel (drop 5 input) in
    if length input == 0
    then []
    else digits_from 0 (8 - stuffing) input ++ (replicate stuffing b'=' ++ rest)

unfoldable pub to_base32_hex : Bytes → Bytes
to_base32_hex input = to_loop (length input) input

abbrev pub zeros : Bytes
zeros = replicate 5 0

-- The loop over the digits: the n-th on, with the block, what was written to it, and the bytes so far. At
-- the end the bits in the block are rounded up to bytes.
unfoldable pub from_loop : ℕ → Bytes → ℕ → Bytes → Bytes → Bytes
from_loop n block to_write ret [] = ret ++ take ((7 + to_write * 5) / 8) block
from_loop n block to_write ret (d ∷ input) =
    let done = ret ++ take ((7 + to_write * 5) / 8) block in
    elim (unbase32hex d) [
      | none ↦ done
      | some c ↦
          let block' = set_bits block c (n % 8 * 5) 5 in
          let full = to_write + 1 == 8 in
          let more =
            from_loop (n + 1) (if full then zeros else block') (if full then 0 else to_write + 1)
              (if full then ret ++ block' else ret) input in
          if c == b'=' then done else more
    ]

unfoldable pub from_base32_hex : Bytes → Bytes
from_base32_hex input = from_loop 0 zeros 0 [] input
