-- ===== src/Base64/RoundTrip.antt =====
-- Decoding what was encoded: pdns/pdns/base64.cc.
use powerdns_improved_lua.Prelude.{
  ℕ, zero, suc, ◌+◌, ◌-◌, ◌*◌, ◌/◌, ◌%◌, ◌≤◌, ◌<◌, ◌≡◌, refl, sym, ap, ◌∙◌, false, [], ◌∷◌, ◌++◌,
  length, length-append, ltb, ◌==◌, some, arith, append_assoc, append-nil,
}
use powerdns_improved_lua.Name.{Bytes, AreBytes}
use powerdns_improved_lua.Text.Relative.{take-append}
use powerdns_improved_lua.Base64.{
  b64_decode1, b64_encode1, decode_group, decode_loop, decoded, trim, three_bytes, b64_decode,
  base64_encode,
}

digit_back : (v : ℕ) → v < 64 → b64_decode1 (b64_encode1 v) ≡ v
unfolding b64_decode1 b64_encode1
digit_back v h = ground arith

digit_no_pad : (v : ℕ) → v < 64 → (b64_encode1 v == b'=') ≡ false
unfolding b64_encode1
digit_no_pad v h = ground arith

group_digit :
    (n v : ℕ) (s : Bytes) (buf pad : ℕ)
    → v < 64
    → decode_group (suc n) (b64_encode1 v ∷ s) buf pad ≡ decode_group n s (buf * 64 + v) pad
unfolding decode_group
group_digit n v s buf pad h =
    let back = digit_back v h in
    let no_pad = digit_no_pad v h in
    let valid : ltb 0x7f v ≡ false = ground arith in rw (back, no_pad, valid) refl

group_pad :
    (n : ℕ) (s : Bytes) (buf pad : ℕ)
    → decode_group (suc n) (b'=' ∷ s) buf pad ≡ decode_group n s (buf * 64 + 0) (pad + 1)
unfolding decode_group b64_decode1
group_pad n s buf pad = refl

group_whole :
    (p q r v : ℕ) (s : Bytes)
    → p < 64
    → q < 64
    → r < 64
    → v < 64
    → decode_group 4 (b64_encode1 p ∷ b64_encode1 q ∷ b64_encode1 r ∷ b64_encode1 v ∷ s) 0 0
      ≡ some ((((0 * 64 + p) * 64 + q) * 64 + r) * 64 + v, 0, s)
group_whole p q r v s hp hq hr hv =
    group_digit 3 p _ 0 0 hp
    ∙ group_digit 2 q _ (0 * 64 + p) 0 hq
    ∙ group_digit 1 r _ ((0 * 64 + p) * 64 + q) 0 hr
    ∙ group_digit 0 v s (((0 * 64 + p) * 64 + q) * 64 + r) 0 hv
    ∙ unfold decode_group in refl

group_two :
    (p q r : ℕ)
    → p < 64
    → q < 64
    → r < 64
    → decode_group 4 (b64_encode1 p ∷ b64_encode1 q ∷ b64_encode1 r ∷ b'=' ∷ []) 0 0
      ≡ some ((((0 * 64 + p) * 64 + q) * 64 + r) * 64 + 0, 1, [])
group_two p q r hp hq hr =
    group_digit 3 p _ 0 0 hp
    ∙ group_digit 2 q _ (0 * 64 + p) 0 hq
    ∙ group_digit 1 r _ ((0 * 64 + p) * 64 + q) 0 hr
    ∙ group_pad 0 [] (((0 * 64 + p) * 64 + q) * 64 + r) 0
    ∙ unfold decode_group in refl

group_one :
    (p q : ℕ)
    → p < 64
    → q < 64
    → decode_group 4 (b64_encode1 p ∷ b64_encode1 q ∷ b'=' ∷ b'=' ∷ []) 0 0
      ≡ some ((((0 * 64 + p) * 64 + q) * 64 + 0) * 64 + 0, 2, [])
group_one p q hp hq =
    group_digit 3 p _ 0 0 hp
    ∙ group_digit 2 q _ (0 * 64 + p) 0 hq
    ∙ group_pad 1 _ ((0 * 64 + p) * 64 + q) 0
    ∙ group_pad 0 [] (((0 * 64 + p) * 64 + q) * 64 + 0) 1
    ∙ unfold decode_group in refl

three_bytes_whole :
    (a b c : ℕ)
    → a < 256
    → b < 256
    → c < 256
    → three_bytes (
        (((0 * 64 + a / 4) * 64 + (a % 4 * 16 + b / 16)) * 64 + (b % 16 * 4 + c / 64)) * 64
        + c % 64)
      ≡ a ∷ b ∷ c ∷ []
unfolding three_bytes
three_bytes_whole a b c ha hb hc = ground arith

three_bytes_two :
    (a b : ℕ)
    → a < 256
    → b < 256
    → three_bytes ((((0 * 64 + a / 4) * 64 + (a % 4 * 16 + b / 16)) * 64 + b % 16 * 4) * 64 + 0)
      ≡ a ∷ b ∷ 0 ∷ []
unfolding three_bytes
three_bytes_two a b ha hb = ground arith

three_bytes_one :
    (a : ℕ)
    → a < 256
    → three_bytes ((((0 * 64 + a / 4) * 64 + a % 4 * 16) * 64 + 0) * 64 + 0) ≡ a ∷ 0 ∷ 0 ∷ []
unfolding three_bytes
three_bytes_one a ha = ground arith

trim_behind :
    (pad : ℕ) (out rest : Bytes)
    → pad ≡ length rest
    → 0 < pad
    → trim pad (out ++ rest) ≡ decoded out
unfolding trim
trim_behind pad out rest h k =
    let size = length-append out rest in
    let some_pad : (pad == 0) ≡ false = ground arith in
    let fits : ltb (length (out ++ rest)) pad ≡ false = ground arith in
    let left : length (out ++ rest) - pad ≡ length out = omega arith in
    rw (some_pad, fits, left, take-append out rest) refl

pub loop_step :
    (fuel pad pad' buf c : ℕ) (s rest out : Bytes)
    → decode_group 4 (c ∷ s) 0 0 ≡ some (buf, pad', rest)
    → decode_loop (suc fuel) (c ∷ s) pad out ≡ decode_loop fuel rest pad' (out ++ three_bytes buf)
unfolding decode_loop
loop_step fuel pad pad' buf c s rest out h = ground arith

pub loop_end : (fuel pad : ℕ) (out : Bytes) → decode_loop fuel [] pad out ≡ trim pad out
unfolding decode_loop
loop_end zero pad out = refl
loop_end (suc fuel) pad out = refl

loop_back :
    (fuel : ℕ) (xs out : Bytes)
    → length (base64_encode xs) ≤ fuel
    → AreBytes xs
    → decode_loop fuel (base64_encode xs) 0 out ≡ decoded (out ++ xs)
unfolding base64_encode
loop_back fuel [] out h w = loop_end fuel 0 out ∙ unfold trim in rw (append-nil out) refl
loop_back zero (a ∷ []) out h w = absurd (omega arith)
loop_back zero (a ∷ b ∷ []) out h w = absurd (omega arith)
loop_back zero (a ∷ b ∷ c ∷ xs) out h w = absurd (omega arith)
loop_back (suc fuel) (a ∷ []) out h (ha, _) =
    loop_step fuel 0 2 _ _ _ [] out (group_one (a / 4) (a % 4 * 16) (omega arith) (omega arith))
    ∙ loop_end fuel 2 _
    ∙ ap (trim 2)
        (ap (◌++◌ out) (three_bytes_one a ha) ∙ sym (append_assoc out (a ∷ []) (0 ∷ 0 ∷ [])))
    ∙ trim_behind 2 (out ++ (a ∷ [])) (0 ∷ 0 ∷ []) refl (omega arith)
loop_back (suc fuel) (a ∷ b ∷ []) out h (ha, (hb, _)) =
    loop_step fuel 0 1 _ _ _ [] out (
      group_two (a / 4) (a % 4 * 16 + b / 16) (b % 16 * 4) (omega arith) (omega arith)
        (omega arith))
    ∙ loop_end fuel 1 _
    ∙ ap (trim 1)
        (ap (◌++◌ out) (three_bytes_two a b ha hb) ∙ sym (append_assoc out (a ∷ b ∷ []) (0 ∷ [])))
    ∙ trim_behind 1 (out ++ (a ∷ b ∷ [])) (0 ∷ []) refl (omega arith)
loop_back (suc fuel) (a ∷ b ∷ c ∷ xs) out h (ha, (hb, (hc, w))) =
    loop_step fuel 0 0 _ _ _ (base64_encode xs) out (
      group_whole (a / 4) (a % 4 * 16 + b / 16) (b % 16 * 4 + c / 64) (c % 64) (base64_encode xs)
        (omega arith) (omega arith) (omega arith) (omega arith))
    ∙ ap (λ (t : Bytes). decode_loop fuel (base64_encode xs) 0 (out ++ t))
        (three_bytes_whole a b c ha hb hc)
    ∙ loop_back fuel xs (out ++ (a ∷ b ∷ c ∷ [])) (omega arith) w
    ∙ ap decoded (append_assoc out (a ∷ b ∷ c ∷ []) xs)

-- What Base64Encode gives for any bytes, B64Decode appends as those bytes to its output.
pub b64_decode-base64_encode :
    (xs out : Bytes) → AreBytes xs → b64_decode (base64_encode xs) out ≡ decoded (out ++ xs)
unfolding b64_decode
b64_decode-base64_encode xs out w = loop_back (length (base64_encode xs)) xs out (omega arith) w
