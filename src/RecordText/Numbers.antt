-- ===== src/RecordText/Numbers.antt =====
-- Numbers in the text of records, in pdns/pdns/rcpgenerator.cc: what the reader makes of what the
-- writer writes.
use powerdns_improved_lua.Prelude.{
  ℕ, zero, suc, ◌+◌, ◌-◌, ◌*◌, ◌/◌, ◌%◌, ◌^◌, ◌<◌, ◌≡◌, refl, ap, ◌∙◌, inl, inr, Bool, true, false,
  [], ◌∷◌, ◌++◌, length, ltb, ◌==◌, if◌then◌else◌, arith, min, Bool-cases, length-append,
}
use powerdns_improved_lua.Name.{Bytes}
use powerdns_improved_lua.RecordText.{Parsed, parsed, failed, record_text, is_space, is_digit}
use powerdns_improved_lua.RecordText.Reader.{
  RecordTextReader, digits_value, strtoul, ntohl, ip_loop,
}
use powerdns_improved_lua.RecordText.Reader as Reader
use powerdns_improved_lua.RecordText.Writer.{decimal}
use powerdns_improved_lua.RecordText.Fields.{
  all_in, stops, take_while-append, drop_while-append, in_front, skip_spaces-field,
}

digits_value-append :
    (acc : ℕ) (xs : Bytes) (d : ℕ)
    → digits_value acc (xs ++ (d ∷ [])) ≡ digits_value acc xs * 10 + (d - b'0')
unfolding digits_value
digits_value-append acc [] d = refl
digits_value-append acc (x ∷ xs) d = digits_value-append (acc * 10 + (x - b'0')) xs d

-- The first number that has more digits.
unfoldable pub limit : ℕ → ℕ
limit zero = 1
limit (suc n) = 10 * limit n

pub digits_value-decimal : (n v : ℕ) → v < limit n → digits_value 0 (decimal n v) ≡ v
unfolding limit decimal digits_value
digits_value-decimal zero v h = omega arith
digits_value-decimal (suc n) v h = elim (Bool-cases (ltb v 10)) [
  | inl small ↦ ground arith
  | inr large ↦
      let high = digits_value-decimal n (v / 10) (omega arith) in
      let last = digits_value-append 0 (decimal n (v / 10)) (b'0' + v % 10) in ground arith
]

all_in-append :
    (p : ℕ → Bool) (xs : Bytes) (d : ℕ)
    → all_in p xs ≡ true
    → p d ≡ true
    → all_in p (xs ++ (d ∷ [])) ≡ true
unfolding all_in
all_in-append p [] d h k = ground arith
all_in-append p (x ∷ xs) d h k = ground (arith, all_in-append p xs d)

pub all_in-decimal : (n v : ℕ) → all_in is_digit (decimal n v) ≡ true
unfolding decimal all_in
all_in-decimal zero v = refl
all_in-decimal (suc n) v =
    let digit : is_digit (b'0' + v % 10) ≡ true = unfold is_digit in ground arith in
    let small : ltb v 10 ≡ true → is_digit (b'0' + v) ≡ true =
      λ h. unfold is_digit in ground arith in
    let high =
      all_in-append is_digit (decimal n (v / 10)) (b'0' + v % 10) (all_in-decimal n (v / 10))
        digit in
    elim (Bool-cases (ltb v 10)) [
      | inl one ↦ let first = small one in ground arith
      | inr more ↦ ground arith
    ]

pub length-decimal : (n v : ℕ) → 0 < length (decimal (suc n) v)
unfolding decimal
length-decimal n v = elim (Bool-cases (ltb v 10)) [
  | inl one ↦ ground arith
  | inr more ↦ ground (arith, length-append (decimal n (v / 10)) ((b'0' + v % 10) ∷ []))
]

digit-space : (x : ℕ) → is_digit x ≡ true → is_space x ≡ false
unfolding is_digit is_space
digit-space x h = ground arith

-- The value that strtoul gives for digits, as a uint32_t.
unfoldable pub wrapped : ℕ → ℕ
wrapped v = min v (2 ^ 64 - 1) % 2 ^ 32

read_digits :
    (zone string xs tail : Bytes)
    → all_in is_digit xs ≡ true
    → 0 < length xs
    → stops is_digit tail ≡ true
    → Reader.xfr_32bit_int (in_front zone string xs tail)
      ≡ parsed (wrapped (digits_value 0 xs), record { rest = tail; zone = zone })
unfolding Reader.xfr_32bit_int strtoul wrapped
read_digits zone string [] tail h n k = absurd (omega arith)
read_digits zone string (x ∷ xs) tail h n k =
    let digit : is_digit x ≡ true = unfold all_in in ground arith in
    let here = skip_spaces-field zone string x xs tail (digit-space x digit) in
    let taken = take_while-append is_digit (x ∷ xs) tail h k in
    let left = drop_while-append is_digit (x ∷ xs) tail h k in
    rw here (rw digit (rw taken (rw left refl)))

xfr_32bit_int_read :
    (v : ℕ) (zone string tail : Bytes)
    → v < 10 ^ 20
    → stops is_digit tail ≡ true
    → Reader.xfr_32bit_int (in_front zone string (decimal 20 v) tail)
      ≡ parsed (wrapped v, record { rest = tail; zone = zone })
unfolding limit
xfr_32bit_int_read v zone string tail low stop =
    let value : digits_value 0 (decimal 20 v) ≡ v = digits_value-decimal 20 v low in
    read_digits zone string (decimal 20 v) tail (all_in-decimal 20 v) (length-decimal 19 v) stop
    ∙ ap (λ (n : ℕ). parsed (wrapped n, record { rest = tail; zone = zone })) value

fits_16 :
    {A : Type 0} (n : ℕ) (fit over : A)
    → (if n % 2 ^ 16 == n then fit else over) ≡ (if ltb n (2 ^ 16) then fit else over)
fits_16 n fit over = elim (Bool-cases (ltb n (2 ^ 16))) [
  | inl small ↦ ground arith
  | inr large ↦ ground arith
]

fits_8 :
    {A : Type 0} (n : ℕ) (fit over : A)
    → (if n % 2 ^ 8 == n then fit else over) ≡ (if ltb n (2 ^ 8) then fit else over)
fits_8 n fit over = elim (Bool-cases (ltb n (2 ^ 8))) [
  | inl small ↦ ground arith
  | inr large ↦ ground arith
]

-- What a reader gives for a number.
abbrev pub number : ℕ → Bytes → Bytes → Parsed (ℕ × RecordTextReader)
number n zone tail = parsed (n, record { rest = tail; zone = zone })

-- A number of up to twenty digits that stands in a text as a field, with no digit behind it, is read
-- as what is left of it in a uint32_t, at most 2 ^ 64 - 1 before that; the readers of 16 and 8 bits
-- then refuse what is too large for them.
pub xfr_int_lem :
    (v : ℕ) (zone string tail : Bytes)
    → v < 10 ^ 20
    → stops is_digit tail ≡ true
    → (Reader.xfr_32bit_int (in_front zone string (decimal 20 v) tail)
        ≡ number (wrapped v) zone tail)
      × (Reader.xfr_16bit_int (in_front zone string (decimal 20 v) tail)
          ≡ (if ltb (wrapped v) (2 ^ 16) then number (wrapped v) zone tail else failed record_text))
      × (Reader.xfr_8bit_int (in_front zone string (decimal 20 v) tail)
          ≡ (if ltb (wrapped v) (2 ^ 8) then number (wrapped v) zone tail else failed record_text))
unfolding Reader.xfr_16bit_int Reader.xfr_8bit_int
xfr_int_lem v zone string tail low stop =
    let whole = xfr_32bit_int_read v zone string tail low stop in
    (
      whole,
      rw whole (fits_16 (wrapped v) (number (wrapped v) zone tail) (failed record_text)),
      rw whole (fits_8 (wrapped v) (number (wrapped v) zone tail) (failed record_text)),
    )
