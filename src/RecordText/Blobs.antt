-- ===== src/RecordText/Blobs.antt =====
-- Blobs in the text of records, in pdns/pdns/rcpgenerator.cc: what the reader makes of what the
-- writer writes.
use powerdns_improved_lua.Prelude.{
  ℕ, ◌+◌, ◌*◌, ◌/◌, ◌%◌, ◌<◌, ◌≡◌, refl, ap, Bool, true, false, not, ◌&&◌, [], ◌∷◌, ◌++◌, length,
  drop, ◌==◌, arith,
}
use powerdns_improved_lua.Name.{Bytes, AreBytes}
use powerdns_improved_lua.Base64.{b64_encode1, base64_encode, b64_decode, decoded}
use powerdns_improved_lua.Base64.RoundTrip.{b64_decode-base64_encode}
use powerdns_improved_lua.RecordText.{parsed, is_space, is_digit}
use powerdns_improved_lua.RecordText.Reader.{
  RecordTextReader, hextodec, hex_pairs, hex_decode, is_not_space, isbase64, erase_all,
}
use powerdns_improved_lua.RecordText.Reader as Reader
use powerdns_improved_lua.RecordText.Writer.{hex_digit, hex_text}
use powerdns_improved_lua.RecordText.Writer as Writer
use powerdns_improved_lua.RecordText.Fields.{
  all_in, stops, take_while-append, drop_while-append, skip_spaces-in_front,
}

hex_digit_lem :
    (v : ℕ) → v < 16 → (hextodec (hex_digit v) ≡ parsed v) × (is_not_space (hex_digit v) ≡ true)
unfolding hextodec hex_digit is_not_space is_space
hex_digit_lem v h = ground arith

hex_pairs-hex_text :
    (xs : Bytes)
    → AreBytes xs
    → (hex_pairs (hex_text xs) ≡ parsed xs)
      × (all_in is_not_space (hex_text xs) ≡ true)
      × (length (hex_text xs) ≡ 2 * length xs)
unfolding hex_pairs hex_text all_in
hex_pairs-hex_text [] w = (refl, refl, refl)
hex_pairs-hex_text (x ∷ xs) (h, w) =
    let (rest, plain, size) = hex_pairs-hex_text xs w in
    let (high, high') = hex_digit_lem (x / 16) (omega arith) in
    let (low, low') = hex_digit_lem (x % 16) (omega arith) in
    let value : x / 16 * 16 + x % 16 ≡ x = omega arith in
    (rw high (rw low (rw rest (ap (λ (n : ℕ). parsed (n ∷ xs)) value))), ground arith, omega arith)

stops-plain : (xs tail : Bytes) → all_in is_not_space xs ≡ true → stops is_space xs ≡ true
unfolding all_in is_not_space stops
stops-plain [] tail h = refl
stops-plain (x ∷ xs) tail h = ground arith

-- A blob that is not empty, written as hexadecimal digits behind any text, is read back from there,
-- at the end of the text or in front of a space.
pub xfr_hex_blob-xfr_hex_blob :
    (val zone string tail : Bytes)
    → AreBytes val
    → 0 < length val
    → stops is_not_space tail ≡ true
    → Reader.xfr_hex_blob (record {
      rest = drop (length string) (Writer.xfr_hex_blob val string) ++ tail;
      zone = zone;
    })
      ≡ parsed (val, record { rest = tail; zone = zone })
unfolding Reader.xfr_hex_blob Writer.xfr_hex_blob hex_decode
xfr_hex_blob-xfr_hex_blob val zone string tail w some h =
    let (value, plain, size) = hex_pairs-hex_text val w in
    let even : (length (hex_text val) % 2 == 1) ≡ false = ground arith in
    let here =
      skip_spaces-in_front zone string (hex_text val) tail (stops-plain (hex_text val) tail plain)
        (omega arith) in
    let taken = take_while-append is_not_space (hex_text val) tail plain h in
    let left = drop_while-append is_not_space (hex_text val) tail plain h in
    rw here (rw taken (rw left (rw even (rw value refl))))

-- What Base64Encode uses, the padding too.
unfoldable is_code : ℕ → Bool
is_code c = isbase64 c && not (is_space c)

encode1-is_code : (v : ℕ) → v < 64 → is_code (b64_encode1 v) ≡ true
unfolding is_code isbase64 b64_encode1 is_space is_digit
encode1-is_code v h = ground arith

padding : is_code b'=' ≡ true
unfolding is_code isbase64 is_space is_digit
padding = refl

all_in-base64_encode :
    (xs : Bytes)
    → AreBytes xs
    → (all_in is_code (base64_encode xs) ≡ true) × (0 < length xs → 0 < length (base64_encode xs))
unfolding all_in base64_encode
all_in-base64_encode [] w = (refl, λ h. h)
all_in-base64_encode (a ∷ []) (ha, w) =
    let p = encode1-is_code (a / 4) (omega arith) in
    let q = encode1-is_code (a % 4 * 16) (omega arith) in
    let pad = padding in (ground arith, λ h. omega arith)
all_in-base64_encode (a ∷ b ∷ []) (ha, (hb, w)) =
    let p = encode1-is_code (a / 4) (omega arith) in
    let q = encode1-is_code (a % 4 * 16 + b / 16) (omega arith) in
    let r = encode1-is_code (b % 16 * 4) (omega arith) in
    let pad = padding in (ground arith, λ h. omega arith)
all_in-base64_encode (a ∷ b ∷ c ∷ xs) (ha, (hb, (hc, w))) =
    let p = encode1-is_code (a / 4) (omega arith) in
    let q = encode1-is_code (a % 4 * 16 + b / 16) (omega arith) in
    let r = encode1-is_code (b % 16 * 4 + c / 64) (omega arith) in
    let s = encode1-is_code (c % 64) (omega arith) in
    let rest = (all_in-base64_encode xs w).0 in (ground arith, λ h. omega arith)

is_code_lem :
    (xs : Bytes)
    → all_in is_code xs ≡ true
    → (all_in isbase64 xs ≡ true) × (erase_all b' ' xs ≡ xs) × (stops is_space xs ≡ true)
unfolding all_in is_code erase_all stops
is_code_lem [] h = (refl, refl, refl)
is_code_lem (x ∷ xs) h =
    let (all, same, start) = is_code_lem xs (ground arith) in
    let other : is_space x ≡ false → (x == b' ') ≡ false = λ k. unfold is_space in ground arith in
    (ground arith, ground arith, ground arith)

into :
    (tmp out : Bytes) (r : RecordTextReader)
    → b64_decode tmp [] ≡ decoded out
    → Reader.decode_into tmp r ≡ parsed (out, r)
unfolding Reader.decode_into
into tmp out r h = ground arith

-- A blob that is not empty, written as base64 behind any text, is read back from there, unless a
-- character that may stand in base64, such as a space, comes next.
pub xfr_blob-xfr_blob :
    (val zone string tail : Bytes)
    → AreBytes val
    → 0 < length val
    → stops isbase64 tail ≡ true
    → Reader.xfr_blob
        (record { rest = drop (length string) (Writer.xfr_blob val string) ++ tail; zone = zone })
      ≡ parsed (val, record { rest = tail; zone = zone })
unfolding Reader.xfr_blob Writer.xfr_blob
xfr_blob-xfr_blob val zone string tail w some h =
    let (code, long) = all_in-base64_encode val w in
    let (all, same, start) = is_code_lem (base64_encode val) code in
    let here = skip_spaces-in_front zone string (base64_encode val) tail start (long some) in
    let taken = take_while-append isbase64 (base64_encode val) tail all h in
    let left = drop_while-append isbase64 (base64_encode val) tail all h in
    let back = b64_decode-base64_encode val [] w in
    rw here (rw taken (rw left (rw same (into (base64_encode val) val _ back))))
