-- ===== src/RecordText/Writer.antt =====
-- `RecordTextWriter` of pdns/pdns/rcpgenerator.cc, as functions from the text so far to the new one.
use powerdns_improved_lua.Prelude.{
  ℕ, zero, suc, ◌+◌, ◌-◌, ◌/◌, ◌%◌, ◌^◌, Bool, false, ◌||◌, [], ◌∷◌, ◌++◌, length, ltb, ◌==◌,
  if◌then◌else◌,
}
use powerdns_improved_lua.Name.{Bytes}
use powerdns_improved_lua.Base64.{base64_encode}
use powerdns_improved_lua.RecordText.{is_space}

-- The space in front of a field that is not the first.
unfoldable pub next_field : Bytes → Bytes
next_field string = if length string == 0 then string else string ++ (b' ' ∷ [])

-- lexical_cast of a number, of up to so many digits.
unfoldable pub decimal : ℕ → ℕ → Bytes
decimal zero v = []
decimal (suc digits) v =
    let high = decimal digits (v / 10) in
    if ltb v 10 then (b'0' + v) ∷ [] else high ++ ((b'0' + v % 10) ∷ [])

unfoldable pub xfr_48bit_int : ℕ → Bytes → Bytes
xfr_48bit_int val string = next_field string ++ decimal 20 val

unfoldable pub xfr_32bit_int : ℕ → Bytes → Bytes
xfr_32bit_int val string = next_field string ++ decimal 20 val

unfoldable pub xfr_16bit_int : ℕ → Bytes → Bytes
xfr_16bit_int val string = xfr_32bit_int val string

unfoldable pub xfr_8bit_int : ℕ → Bytes → Bytes
xfr_8bit_int val string = xfr_32bit_int val string

-- One part of an address.
unfoldable pub part : ℕ → Bytes
part v =
    if ltb v 10
    then (v + b'0') ∷ []
    else if ltb v 100
    then (v / 10 + b'0') ∷ (v % 10 + b'0') ∷ []
    else (v / 100 + b'0') ∷ (v % 100 / 10 + b'0') ∷ (v % 100 % 10 + b'0') ∷ []

-- The bytes of the number in memory, on a machine that has the lowest first.
unfoldable pub xfr_ip : ℕ → Bytes → Bytes
xfr_ip val string =
    next_field string
    ++ (part (val % 2 ^ 8)
        ++ (b'.' ∷ part (val / 2 ^ 8 % 2 ^ 8)
            ++ (b'.' ∷ part (val / 2 ^ 16 % 2 ^ 8) ++ (b'.' ∷ part (val / 2 ^ 24 % 2 ^ 8)))))

unfoldable pub has_blank : Bytes → Bool
has_blank [] = false
has_blank (c ∷ s) = c == b' ' || has_blank s

unfoldable pub blank_escaped : Bytes → Bytes
blank_escaped [] = []
blank_escaped (c ∷ s) =
    let rest = blank_escaped s in if is_space c then b'\\' ∷ b' ' ∷ rest else c ∷ rest

unfoldable pub xfr_label : Bytes → Bytes → Bytes
xfr_label val string = next_field string ++ (if has_blank val then blank_escaped val else val)

unfoldable pub xfr_blob : Bytes → Bytes → Bytes
xfr_blob val string = next_field string ++ base64_encode val

unfoldable pub hex_digit : ℕ → ℕ
hex_digit v = if ltb v 10 then b'0' + v else b'a' + (v - 10)

unfoldable pub hex_text : Bytes → Bytes
hex_text [] = []
hex_text (c ∷ s) = hex_digit (c / 16) ∷ hex_digit (c % 16) ∷ hex_text s

unfoldable pub xfr_hex_blob : Bytes → Bytes → Bytes
xfr_hex_blob val string = next_field string ++ hex_text val

unfoldable pub xfr_text : Bytes → Bytes → Bytes
xfr_text val string = next_field string ++ val
