-- ===== src/RecordText/Addresses.antt =====
-- Addresses in the text of records, in pdns/pdns/rcpgenerator.cc: what the reader makes of what the
-- writer writes.
use powerdns_improved_lua.Prelude.{
  ℕ, ◌+◌, ◌-◌, ◌*◌, ◌/◌, ◌%◌, ◌^◌, ◌≤◌, ◌<◌, ◌≡◌, refl, ap, ◌∙◌, Bool, true, [], ◌∷◌, ◌++◌, length,
  drop, arith, get_or, append_assoc,
}
use powerdns_improved_lua.Name.{Bytes}
use powerdns_improved_lua.RecordText.{parsed, is_space, is_digit}
use powerdns_improved_lua.RecordText.Reader.{
  RecordTextReader, digits_value, strtoul, ntohl, ip_loop,
}
use powerdns_improved_lua.RecordText.Reader as Reader
use powerdns_improved_lua.RecordText.Writer.{decimal, part, next_field}
use powerdns_improved_lua.RecordText.Writer as Writer
use powerdns_improved_lua.RecordText.Fields.{all_in, stops, skip_spaces-in_front}
use powerdns_improved_lua.RecordText.Numbers.{number}

-- The end of an address: that of the text, or a space.
unfoldable pub ends : Bytes → Bool
ends [] = true
ends (c ∷ s) = is_space c

ip_digit :
    (c : ℕ) (rest : Bytes) (val octet count : ℕ)
    → is_digit c ≡ true
    → octet * 10 + (c - b'0') < 256
    → ip_loop (c ∷ rest) val octet count ≡ ip_loop rest val (octet * 10 + (c - b'0')) count
unfolding ip_loop is_digit
ip_digit c rest val octet count h low = ground arith

-- Digits, one after the other.
ip_digits : Bytes → ℕ → ℕ
ip_digits [] octet = octet
ip_digits (c ∷ s) octet = ip_digits s (octet * 10 + (c - b'0'))

ip_loop-digits :
    (s rest : Bytes) (val octet count : ℕ)
    → all_in is_digit s ≡ true
    → ip_digits s octet < 256
    → ip_loop (s ++ rest) val octet count ≡ ip_loop rest val (ip_digits s octet) count
unfolding ip_digits all_in
ip_loop-digits [] rest val octet count h low = refl
ip_loop-digits (c ∷ s) rest val octet count h low =
    let grows : octet * 10 + (c - b'0') ≤ ip_digits s (octet * 10 + (c - b'0')) =
      ip_digits_grow s (octet * 10 + (c - b'0')) in
    ip_digit c (s ++ rest) val octet count (ground arith) (omega arith)
    ∙ ip_loop-digits s rest val (octet * 10 + (c - b'0')) count (ground arith) low
  where
    ip_digits_grow : (s : Bytes) (octet : ℕ) → octet ≤ ip_digits s octet
    ip_digits_grow [] octet = omega arith
    ip_digits_grow (c ∷ s) octet =
        let more = ip_digits_grow s (octet * 10 + (c - b'0')) in omega arith

part_digits : (b : ℕ) → b < 256 → (all_in is_digit (part b) ≡ true) × (ip_digits (part b) 0 ≡ b)
unfolding part all_in ip_digits is_digit
part_digits b low = ground arith

ip_part :
    (b : ℕ) (rest : Bytes) (val count : ℕ)
    → b < 256
    → ip_loop (part b ++ rest) val 0 count ≡ ip_loop rest val b count
ip_part b rest val count low =
    let (digits, value) = part_digits b low in
    ip_loop-digits (part b) rest val 0 count digits (omega arith)
    ∙ ap (λ (n : ℕ). ip_loop rest val n count) value

ip_dot :
    (rest : Bytes) (val octet count : ℕ)
    → count < 3
    → ip_loop (b'.' ∷ rest) val octet count
      ≡ ip_loop rest ((val * 2 ^ 8 + octet) % 2 ^ 32) 0 (count + 1)
unfolding ip_loop
ip_dot rest val octet count low = ground arith

ip_end :
    (tail : Bytes) (val octet : ℕ)
    → ends tail ≡ true
    → ip_loop tail val octet 3 ≡ parsed ((val * 2 ^ 8 + octet) % 2 ^ 32, tail)
unfolding ip_loop ends is_space is_digit
ip_end [] val octet h = ground arith
ip_end (c ∷ tail) val octet h = ground arith

ip_read :
    (a b c d : ℕ) (tail : Bytes)
    → a < 256
    → b < 256
    → c < 256
    → d < 256
    → ends tail ≡ true
    → ip_loop (part a ++ (b'.' ∷ part b ++ (b'.' ∷ part c ++ (b'.' ∷ part d ++ tail)))) 0 0 0
      ≡ parsed (a * 2 ^ 24 + b * 2 ^ 16 + c * 2 ^ 8 + d, tail)
ip_read a b c d tail ha hb hc hd h =
    let value : ((((0 * 2 ^ 8 + a) % 2 ^ 32 * 2 ^ 8 + b) % 2 ^ 32 * 2 ^ 8 + c) % 2 ^ 32 * 2 ^ 8 + d)
          % 2 ^ 32
        ≡ a * 2 ^ 24 + b * 2 ^ 16 + c * 2 ^ 8 + d =
      omega arith in
    ip_part a _ 0 0 ha
    ∙ ip_dot _ 0 a 0 (omega arith)
    ∙ ip_part b _ _ 1 hb
    ∙ ip_dot _ _ b 1 (omega arith)
    ∙ ip_part c _ _ 2 hc
    ∙ ip_dot _ _ c 2 (omega arith)
    ∙ ip_part d tail _ 3 hd
    ∙ ip_end tail _ d h
    ∙ ap (λ (n : ℕ). parsed (n, tail)) value

part_start :
    (b : ℕ) (rest : Bytes)
    → (stops is_space (part b ++ rest) ≡ true)
      × (0 < length (part b ++ rest))
      × (b < 256 → is_digit (get_or (part b ++ rest) 0 0) ≡ true)
unfolding part stops is_space is_digit
part_start b rest = (ground arith, ground arith, λ h. ground arith)

-- The text of an address.
abbrev pub ip_text : ℕ → Bytes
ip_text v =
    part (v % 2 ^ 8)
    ++ (b'.' ∷ part (v / 2 ^ 8 % 2 ^ 8)
        ++ (b'.' ∷ part (v / 2 ^ 16 % 2 ^ 8) ++ (b'.' ∷ part (v / 2 ^ 24 % 2 ^ 8))))

ntohl_bytes :
    (v : ℕ)
    → v < 2 ^ 32
    → ntohl (
        v % 2 ^ 8 * 2 ^ 24
        + v / 2 ^ 8 % 2 ^ 8 * 2 ^ 16
        + v / 2 ^ 16 % 2 ^ 8 * 2 ^ 8
        + v / 2 ^ 24 % 2 ^ 8)
      ≡ v
unfolding ntohl
ntohl_bytes v h = omega arith

dotted_tail :
    (p q r s tail : Bytes)
    → (p ++ (b'.' ∷ q ++ (b'.' ∷ r ++ (b'.' ∷ s)))) ++ tail
      ≡ p ++ (b'.' ∷ q ++ (b'.' ∷ r ++ (b'.' ∷ s ++ tail)))
dotted_tail p q r s tail =
    append_assoc p (b'.' ∷ q ++ (b'.' ∷ r ++ (b'.' ∷ s))) tail
    ∙ ap (λ (t : Bytes). p ++ (b'.' ∷ t))
        (append_assoc q (b'.' ∷ r ++ (b'.' ∷ s)) tail
          ∙ ap (λ (t : Bytes). q ++ (b'.' ∷ t)) (append_assoc r (b'.' ∷ s) tail))

-- An address that the writer puts behind any text is read back from there, at the end of the text
-- or in front of a space.
pub xfr_ip-xfr_ip :
    (v : ℕ) (zone string tail : Bytes)
    → v < 2 ^ 32
    → ends tail ≡ true
    → Reader.xfr_ip
        (record { rest = drop (length string) (Writer.xfr_ip v string) ++ tail; zone = zone })
      ≡ number v zone tail
unfolding Reader.xfr_ip Writer.xfr_ip
xfr_ip-xfr_ip v zone string tail low h =
    let a = v % 2 ^ 8 in
    let b = v / 2 ^ 8 % 2 ^ 8 in
    let c = v / 2 ^ 16 % 2 ^ 8 in
    let d = v / 2 ^ 24 % 2 ^ 8 in
    let begin = part_start a (b'.' ∷ part b ++ (b'.' ∷ part c ++ (b'.' ∷ part d))) in
    let behind = b'.' ∷ part b ++ (b'.' ∷ part c ++ (b'.' ∷ part d ++ tail)) in
    let digit = (part_start a behind).2 (omega arith) in
    let here = skip_spaces-in_front zone string (ip_text v) tail begin.0 begin.1 in
    let text = dotted_tail (part a) (part b) (part c) (part d) tail in
    let loop = ip_read a b c d tail (omega arith) (omega arith) (omega arith) (omega arith) h in
    let value = ap (λ (n : ℕ). number n zone tail) (ntohl_bytes v low) in
    rw here (rw text (rw digit (rw loop value)))
