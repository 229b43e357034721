-- ===== src/Base64.antt =====
-- Base64 in pdns/pdns/base64.cc, for keys and signatures in zone files.
pub mod RoundTrip
pub mod Errors
use powerdns_improved_lua.Prelude.{
  ℕ, zero, suc, ◌+◌, ◌-◌, ◌*◌, ◌/◌, ◌%◌, ◌^◌, Bool, true, false, not, ◌&&◌, ◌||◌, List, [], ◌∷◌,
  ◌++◌, length, leb, ltb, ◌==◌, if◌then◌else◌, Option, none, some, take,
}
use powerdns_improved_lua.Name.{Bytes}

-- `B64Decode1`, in the arithmetic of unsigned char. 0x80 stands for no digit.
unfoldable pub b64_decode1 : ℕ → ℕ
b64_decode1 c =
    let from_9 = (57 + 256 - c) % 256 in
    let from_Z = (90 + 256 - c) % 256 in
    let from_z = (122 + 256 - c) % 256 in
    if c == b'+'
    then 62
    else if c == b'/'
    then 63
    else if c == b'='
    then 0
    else if leb from_9 0x3f
    then (61 + 256 - from_9) % 256
    else if leb from_Z 0x3f
    then (25 + 256 - from_Z) % 256
    else if leb from_z 0x3f
    then (51 + 256 - from_z) % 256
    else 0x80

unfoldable pub b64_encode1 : ℕ → ℕ
b64_encode1 uc =
    if ltb uc 26
    then b'A' + uc
    else if ltb uc 52
    then b'a' + (uc - 26)
    else if ltb uc 62
    then b'0' + (uc - 52)
    else if uc == 62
    then b'+'
    else b'/'

-- The inner loop, over the four groups of six bits: the buffer, the number of '=', and what is left
-- of the input. A digit that passes the test is below 64, so `|` adds it.
unfoldable pub decode_group : ℕ → Bytes → ℕ → ℕ → Option (ℕ × ℕ × Bytes)
decode_group zero s buf pad = some (buf, pad, s)
decode_group (suc n) [] buf pad = decode_group n [] (buf * 64) pad
decode_group (suc n) (c ∷ s) buf pad =
    let digit = b64_decode1 c in
    let rest = decode_group n s (buf * 64 + digit) (if c == b'=' then pad + 1 else pad) in
    if ltb 0x7f digit then none else rest

-- What B64Decode does: the result 1 with the output, the result -1 with the output so far, or the
-- length_error of a resize below zero. `out_of_fuel` is no outcome of the program.
pub data Decoded : Type 0 where
  decoded : Bytes → Decoded
  invalid : Bytes → Decoded
  length_error : Decoded
  out_of_fuel : Decoded

unfoldable pub trim : ℕ → Bytes → Decoded
trim pad out =
    if pad == 0
    then decoded out
    else if ltb (length out) pad
    then length_error
    else decoded (take (length out - pad) out)

unfoldable pub three_bytes : ℕ → Bytes
three_bytes buf = buf / 2 ^ 16 % 256 ∷ buf / 2 ^ 8 % 256 ∷ buf % 256 ∷ []

unfoldable pub decode_loop : ℕ → Bytes → ℕ → Bytes → Decoded
decode_loop fuel [] pad out = trim pad out
decode_loop zero (c ∷ s) pad out = out_of_fuel
decode_loop (suc fuel) (c ∷ s) pad out = elim (decode_group 4 (c ∷ s) 0 0) [
  | none ↦ invalid out
  | some (buf, pad', rest) ↦ decode_loop fuel rest pad' (out ++ three_bytes buf)
]

unfoldable pub b64_decode : Bytes → Bytes → Decoded
b64_decode input out = decode_loop (length input) input 0 out

unfoldable pub base64_encode : Bytes → Bytes
base64_encode [] = []
base64_encode (a ∷ []) = b64_encode1 (a / 4) ∷ b64_encode1 (a % 4 * 16) ∷ b'=' ∷ b'=' ∷ []
base64_encode (a ∷ b ∷ []) =
    b64_encode1 (a / 4) ∷ b64_encode1 (a % 4 * 16 + b / 16) ∷ b64_encode1 (b % 16 * 4) ∷ b'=' ∷ []
base64_encode (a ∷ b ∷ c ∷ rest) =
    b64_encode1 (a / 4)
    ∷ b64_encode1 (a % 4 * 16 + b / 16)
    ∷ b64_encode1 (b % 16 * 4 + c / 64)
    ∷ b64_encode1 (c % 64)
    ∷ base64_encode rest
