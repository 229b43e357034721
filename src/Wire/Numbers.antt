-- ===== src/Wire/Numbers.antt =====
-- Numbers in network order: how pdns/pdns/dnswriter.cc writes them and pdns/pdns/dnsparser.cc reads
-- them back.
use powerdns_improved_lua.Prelude.{
  ℕ, ◌+◌, ◌*◌, ◌/◌, ◌%◌, ◌^◌, ◌<◌, ◌≡◌, refl, sym, ◌∙◌, [], ◌∷◌, ◌++◌, length, length-append, arith,
  append_assoc,
}
use powerdns_improved_lua.Name.{Bytes}
use powerdns_improved_lua.Wire.{Result, ok, ◌>>=◌}
use powerdns_improved_lua.Wire.Reader.{shift_in, get_16bit_int, get_32bit_int}
use powerdns_improved_lua.Wire.Reader.Labels.{at_of_split, next_small}

-- Numbers in network order.
unfoldable pub bytes16 : ℕ → Bytes
bytes16 v = v / 256 % 256 ∷ v % 256 ∷ []

unfoldable pub bytes32 : ℕ → Bytes
bytes32 v = v / 2 ^ 24 % 256 ∷ v / 2 ^ 16 % 256 ∷ v / 256 % 256 ∷ v % 256 ∷ []

unfoldable pub bytes48 : ℕ → Bytes
unfolding bytes16 bytes32
bytes48 v = bytes16 (v / 2 ^ 32 % 2 ^ 16) ++ bytes32 (v % 2 ^ 32)

-- One byte of a number.
shift_in_byte :
    (width ret c : ℕ) (content pre rest : Bytes)
    → content ≡ pre ++ (c ∷ rest)
    → length content < 2 ^ 16
    → shift_in width content ret (length pre)
      ≡ ok ((ret * 256 % 2 ^ width + c) % 2 ^ width, length (pre ++ (c ∷ [])))
unfolding shift_in
shift_in_byte width ret c content pre rest e h =
    rw (at_of_split content pre rest c e, next_small content pre rest c e h) refl

snoc :
    (content pre rest : Bytes) (c : ℕ)
    → content ≡ pre ++ (c ∷ rest)
    → content ≡ (pre ++ (c ∷ [])) ++ rest
snoc content pre rest c e = e ∙ sym (append_assoc pre (c ∷ []) rest)

-- One byte read, and the rest of the read from behind it.
shift_then :
    (width ret c : ℕ) (content pre rest : Bytes) (k : ℕ × ℕ → Result (ℕ × ℕ)) {r : Result (ℕ × ℕ)}
    → content ≡ pre ++ (c ∷ rest)
    → length content < 2 ^ 16
    → k ((ret * 256 % 2 ^ width + c) % 2 ^ width, length (pre ++ (c ∷ []))) ≡ r
    → (shift_in width content ret (length pre) >>= k) ≡ r
shift_then width ret c content pre rest k e h next =
    rw (shift_in_byte width ret c content pre rest e h) next

length-snoc : (pre : Bytes) (c : ℕ) → length (pre ++ (c ∷ [])) ≡ length pre + 1
length-snoc pre c = length-append pre (c ∷ [])

get_16bit_bytes :
    (a b : ℕ) (content pre rest : Bytes)
    → content ≡ pre ++ (a ∷ b ∷ rest)
    → length content < 2 ^ 16
    → get_16bit_int content (length pre)
      ≡ ok (
        ((0 * 256 % 2 ^ 16 + a) % 2 ^ 16 * 256 % 2 ^ 16 + b) % 2 ^ 16,
        length ((pre ++ (a ∷ [])) ++ (b ∷ [])),
      )
unfolding get_16bit_int
get_16bit_bytes a b content pre rest e h =
    let e₁ = snoc content pre (b ∷ rest) a e in
    shift_then 16 0 a content pre (b ∷ rest) (λ (v, p). shift_in 16 content v p) e h
      (shift_in_byte 16 ((0 * 256 % 2 ^ 16 + a) % 2 ^ 16) b content (pre ++ (a ∷ [])) rest e₁ h)

-- A uint16_t is read back as it was written, and the position moves behind its two bytes.
pub get_16bit_int-bytes16 :
    (v : ℕ) (pre rest : Bytes)
    → v < 2 ^ 16
    → length (pre ++ (bytes16 v ++ rest)) < 2 ^ 16
    → get_16bit_int (pre ++ (bytes16 v ++ rest)) (length pre) ≡ ok (v, length pre + 2)
get_16bit_int-bytes16 v pre rest small h =
    let a = v / 256 % 256 in
    let b = v % 256 in
    let read = get_16bit_bytes a b (pre ++ (a ∷ b ∷ rest)) pre rest refl (unfold bytes16 in h) in
    let value : ((0 * 256 % 2 ^ 16 + a) % 2 ^ 16 * 256 % 2 ^ 16 + b) % 2 ^ 16 ≡ v = omega arith in
    let place : length ((pre ++ (a ∷ [])) ++ (b ∷ [])) ≡ length pre + 2 =
      omega (arith, length-snoc (pre ++ (a ∷ [])) b, length-snoc pre a) in
    unfold bytes16 in rw (read, value, place) refl

-- A uint32_t is read back as it was written, and the position moves behind its four bytes.
pub get_32bit_int-bytes32 :
    (v : ℕ) (pre rest : Bytes)
    → v < 2 ^ 32
    → length (pre ++ (bytes32 v ++ rest)) < 2 ^ 16
    → get_32bit_int (pre ++ (bytes32 v ++ rest)) (length pre) ≡ ok (v, length pre + 4)
unfolding get_32bit_int bytes32
get_32bit_int-bytes32 v pre rest small h =
    let a = v / 2 ^ 24 % 256 in
    let b = v / 2 ^ 16 % 256 in
    let c = v / 256 % 256 in
    let d = v % 256 in
    let content = pre ++ (a ∷ b ∷ c ∷ d ∷ rest) in
    let p₁ = pre ++ (a ∷ []) in
    let p₂ = p₁ ++ (b ∷ []) in
    let p₃ = p₂ ++ (c ∷ []) in
    let e₁ = snoc content pre (b ∷ c ∷ d ∷ rest) a refl in
    let e₂ = snoc content p₁ (c ∷ d ∷ rest) b e₁ in
    let e₃ = snoc content p₂ (d ∷ rest) c e₂ in
    let s₀ = shift_in_byte 32 0 a content pre (b ∷ c ∷ d ∷ rest) refl h in
    let s₁ = shift_in_byte 32 ((0 * 256 % 2 ^ 32 + a) % 2 ^ 32) b content p₁ (c ∷ d ∷ rest) e₁ h in
    let v₁ : ((0 * 256 % 2 ^ 32 + a) % 2 ^ 32 * 256 % 2 ^ 32 + b) % 2 ^ 32 ≡ v / 2 ^ 16 =
      omega arith in
    let s₂ = shift_in_byte 32 (v / 2 ^ 16) c content p₂ (d ∷ rest) e₂ h in
    let v₂ : (v / 2 ^ 16 * 256 % 2 ^ 32 + c) % 2 ^ 32 ≡ v / 256 = omega arith in
    let s₃ = shift_in_byte 32 (v / 256) d content p₃ rest e₃ h in
    let v₃ : (v / 256 * 256 % 2 ^ 32 + d) % 2 ^ 32 ≡ v = omega arith in
    let place : length (p₃ ++ (d ∷ [])) ≡ length pre + 4 =
      omega (arith, length-snoc p₃ d, length-snoc p₂ c, length-snoc p₁ b, length-snoc pre a) in
    rw (s₀, s₁, v₁, s₂, v₂, s₃, v₃, place) refl
