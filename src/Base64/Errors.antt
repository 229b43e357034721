-- ===== src/Base64/Errors.antt =====
-- What B64Decode of pdns/pdns/base64.cc refuses.
use powerdns_improved_lua.Prelude.{
  ℕ, zero, suc, ◌+◌, ◌-◌, ◌*◌, ◌≤◌, ◌<◌, ◌≡◌, refl, sym, ap, ◌∙◌, ◌⊎◌, inl, inr, Bool, true, false,
  not, ◌&&◌, ◌||◌, [], ◌∷◌, ◌++◌, length, leb, ltb, ◌==◌, if◌then◌else◌, none, some, arith,
  Bool-cases,
}
use powerdns_improved_lua.Name.{Bytes, AreBytes}
use powerdns_improved_lua.Base64.{
  b64_decode1, decode_group, decode_loop, Decoded, decoded, invalid, length_error, out_of_fuel,
  trim, three_bytes, b64_decode,
}
use powerdns_improved_lua.Base64.RoundTrip.{loop_step, loop_end}

-- The bytes that pass for digits: besides the alphabet and '=' all up to '9', those between 'A' and
-- 'z', and the last four.
unfoldable pub passes : ℕ → Bool
passes c = ((leb c b'9' || c == b'=') || (leb b'A' c && leb c b'z')) || leb 252 c

decode1-passes : (c : ℕ) → c < 256 → ltb 0x7f (b64_decode1 c) ≡ not (passes c)
unfolding b64_decode1 passes
decode1-passes c h = ground arith

pub all_pass : Bytes → Bool
all_pass [] = true
all_pass (c ∷ s) = passes c && all_pass s

-- The output does not count.
pub refuses : Decoded → Bool
refuses (invalid out) = true
refuses (decoded out) = false
refuses length_error = false
refuses out_of_fuel = false

group-passes :
    (n : ℕ) (s : Bytes) (buf pad : ℕ)
    → AreBytes s
    → ((decode_group n s buf pad ≡ none) × (all_pass s ≡ false))
      ⊎ ((buf' : ℕ) × (pad' : ℕ) × (rest : Bytes) × (decode_group n s buf pad
            ≡ some (buf', pad', rest))
          × (all_pass rest ≡ all_pass s)
          × AreBytes rest
          × (length rest ≡ length s - n))
unfolding decode_group all_pass
group-passes zero s buf pad w = inr (buf, pad, s, refl, refl, w, omega arith)
group-passes (suc n) [] buf pad w = elim (group-passes n [] (buf * 64) pad w) [
  | inl failed ↦ inl failed
  | inr (buf', pad', rest, done, same, bytes, size) ↦
      inr (buf', pad', rest, done, same, bytes, omega arith)
]
group-passes (suc n) (c ∷ s) buf pad (h, w) = elim (Bool-cases (passes c)) [
  | inr bad ↦
      let digit : ltb 0x7f (b64_decode1 c) ≡ true = decode1-passes c h ∙ rw bad refl in
      inl (rw digit refl, rw bad refl)
  | inl good ↦
      let digit : ltb 0x7f (b64_decode1 c) ≡ false = decode1-passes c h ∙ rw good refl in
      elim (group-passes n s (buf * 64 + b64_decode1 c) (if c == b'=' then pad + 1 else pad) w) [
        | inl (failed, bad) ↦ inl (rw digit failed, rw good bad)
        | inr (buf', pad', rest, done, same, bytes, size) ↦
            inr (buf', pad', rest, rw digit done, rw good same, bytes, omega arith)
      ]
]

trim-refuses : (pad : ℕ) (out : Bytes) → refuses (trim pad out) ≡ false
unfolding trim refuses
trim-refuses pad out = ground arith

refuses-invalid : (out : Bytes) → refuses (invalid out) ≡ true
unfolding refuses
refuses-invalid out = refl

loop_stop :
    (fuel pad c : ℕ) (s out : Bytes)
    → decode_group 4 (c ∷ s) 0 0 ≡ none
    → decode_loop (suc fuel) (c ∷ s) pad out ≡ invalid out
unfolding decode_loop
loop_stop fuel pad c s out h = ground arith

loop-refuses :
    (fuel : ℕ) (s : Bytes) (pad : ℕ) (out : Bytes)
    → AreBytes s
    → length s ≤ fuel
    → refuses (decode_loop fuel s pad out) ≡ not (all_pass s)
loop-refuses fuel [] pad out w h =
    ap refuses (loop_end fuel pad out) ∙ trim-refuses pad out ∙ unfold all_pass in refl
loop-refuses zero (c ∷ s) pad out w h = absurd (omega arith)
loop-refuses (suc fuel) (c ∷ s) pad out w h = elim (group-passes 4 (c ∷ s) 0 0 w) [
  | inl (failed, bad) ↦
      ap refuses (loop_stop fuel pad c s out failed) ∙ refuses-invalid out ∙ ap not (sym bad)
  | inr (buf, pad', rest, done, same, bytes, size) ↦
      ap refuses (loop_step fuel pad pad' buf c s rest out done)
      ∙ loop-refuses fuel rest pad' (out ++ three_bytes buf) bytes (omega arith)
      ∙ ap not same
]

-- B64Decode returns -1 exactly where a byte of its input does not pass for a digit.
pub b64_decode-refuses :
    (s out : Bytes) → AreBytes s → refuses (b64_decode s out) ≡ not (all_pass s)
unfolding b64_decode
b64_decode-refuses s out w = loop-refuses (length s) s 0 out w (omega arith)
