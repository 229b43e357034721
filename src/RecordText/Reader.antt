-- ===== src/RecordText/Reader.antt =====
-- `RecordTextReader` of pdns/pdns/rcpgenerator.cc. Its state is the zone and the text from its
-- position on: nothing looks back.
use powerdns_improved_lua.Prelude.{
  ℕ, zero, suc, ◌+◌, ◌-◌, ◌*◌, ◌/◌, ◌%◌, ◌^◌, Bool, true, false, not, ◌&&◌, ◌||◌, [], ◌∷◌, ◌++◌,
  length, leb, ltb, ◌==◌, if◌then◌else◌, Option, none, some, min, get_or, take,
}
use powerdns_improved_lua.Name.{Bytes}
use powerdns_improved_lua.Text.{drop_while, take_while}
use powerdns_improved_lua.Base64.{b64_decode, decoded, invalid, length_error, out_of_fuel}
use powerdns_improved_lua.RecordText.{
  Parsed, parsed, failed, ◌>>=◌, record_text, stuck, is_space, is_digit,
}
use powerdns_improved_lua.RecordText as RecordText

pub record RecordTextReader : Type 0 where
  pub rest : Bytes
  pub zone : Bytes

unfoldable pub skip_spaces : RecordTextReader → Parsed RecordTextReader
skip_spaces r =
    let rest' = drop_while is_space r.rest in
    if length rest' == 0 then failed record_text else parsed (record r { rest = rest' })

-- strtoul in base 10, on digits: the number, at most the largest unsigned long.
unfoldable pub digits_value : ℕ → Bytes → ℕ
digits_value acc [] = acc
digits_value acc (c ∷ s) = digits_value (acc * 10 + (c - b'0')) s

unfoldable pub strtoul : Bytes → ℕ
strtoul s = min (digits_value 0 (take_while is_digit s)) (2 ^ 64 - 1)

unfoldable pub xfr_64bit_int : RecordTextReader → Parsed (ℕ × RecordTextReader)
xfr_64bit_int r = do
  r' ← skip_spaces r
  if not (is_digit (get_or r'.rest 0 0))
      then failed record_text
      else parsed (strtoul r'.rest, record r' { rest = drop_while is_digit r'.rest })

unfoldable pub xfr_48bit_int : RecordTextReader → Parsed (ℕ × RecordTextReader)
xfr_48bit_int r = xfr_64bit_int r

unfoldable pub xfr_32bit_int : RecordTextReader → Parsed (ℕ × RecordTextReader)
xfr_32bit_int r = do
  r' ← skip_spaces r
  if not (is_digit (get_or r'.rest 0 0))
      then failed record_text
      else parsed (strtoul r'.rest % 2 ^ 32, record r' { rest = drop_while is_digit r'.rest })

unfoldable pub xfr_16bit_int : RecordTextReader → Parsed (ℕ × RecordTextReader)
xfr_16bit_int r = do
  (tmp, r') ← xfr_32bit_int r
  if tmp % 2 ^ 16 == tmp then parsed (tmp, r') else failed record_text

unfoldable pub xfr_8bit_int : RecordTextReader → Parsed (ℕ × RecordTextReader)
xfr_8bit_int r = do
  (tmp, r') ← xfr_32bit_int r
  if tmp % 2 ^ 8 == tmp then parsed (tmp, r') else failed record_text

-- ntohl, on a machine whose numbers have the lowest byte first.
unfoldable pub ntohl : ℕ → ℕ
ntohl v =
    v % 2 ^ 8 * 2 ^ 24
    + v / 2 ^ 8 % 2 ^ 8 * 2 ^ 16
    + v / 2 ^ 16 % 2 ^ 8 * 2 ^ 8
    + v / 2 ^ 24 % 2 ^ 8

-- The loop over an address: the value, the dots and what is left.
unfoldable pub ip_loop : Bytes → ℕ → ℕ → ℕ → Parsed (ℕ × Bytes)
ip_loop [] val octet count =
    parsed (if leb count 3 then (val * 2 ^ 8 + octet) % 2 ^ 32 else val, [])
ip_loop (c ∷ rest) val octet count =
    let shifted = (val * 2 ^ 8 + octet) % 2 ^ 32 in
    let next = octet * 10 + (c - b'0') in
    let on_dot = ip_loop rest shifted 0 (count + 1) in
    let on_digit = ip_loop rest val next count in
    if c == b'.'
    then if ltb 3 (count + 1) then parsed (shifted, c ∷ rest) else on_dot
    else if is_digit c
    then if ltb 255 next then failed record_text else on_digit
    else if is_space c
    then parsed (if leb count 3 then shifted else val, c ∷ rest)
    else failed record_text

unfoldable pub xfr_ip : RecordTextReader → Parsed (ℕ × RecordTextReader)
xfr_ip r = do
  r' ← skip_spaces r
  (val, rest') ←
      if not (is_digit (get_or r'.rest 0 0)) then failed record_text else ip_loop r'.rest 0 0 0
  parsed (ntohl val, record r' { rest = rest' })

unfoldable pub eof : RecordTextReader → Bool
eof r = length r.rest == 0

-- The loop of `xfrLabel`: the label with its escapes, and the rest.
unfoldable pub label_span : Bytes → Bytes × Bytes
label_span [] = ([], [])
label_span (c ∷ []) = if is_space c && not (c == 13) then ([], c ∷ []) else (c ∷ [], [])
label_span (c ∷ d ∷ rest) =
    let (plain, left) = label_span (d ∷ rest) in
    let (escaped, left') = label_span rest in
    if is_space c && not (c == 13)
    then ([], c ∷ d ∷ rest)
    else if c == b'\\' && not (d == b'.')
    then (c ∷ d ∷ escaped, left')
    else (c ∷ plain, left)

unfoldable pub complete : Bytes → Bytes → Bytes
complete zone val =
    let last = get_or val (length val - 1) 0 in
    if length val == 0
    then zone
    else if length zone == 0
    then val
    else if last == b'.'
    then take (length val - 1) val
    else if not (is_digit last)
    then val ++ (b'.' ∷ zone)
    else val

unfoldable pub xfr_label : RecordTextReader → Parsed (Bytes × RecordTextReader)
xfr_label r = do
  r' ← skip_spaces r
  let (val, rest') = label_span r'.rest
  parsed (complete r'.zone val, record r' { rest = rest' })

unfoldable pub isbase64 : ℕ → Bool
isbase64 c =
    (((is_space c || is_digit c) || (leb b'a' c && leb c b'z')) || (leb b'A' c && leb c b'Z'))
    || ((c == b'+' || c == b'/') || c == b'=')

unfoldable pub erase_all : ℕ → Bytes → Bytes
erase_all c [] = []
erase_all c (x ∷ s) = let rest = erase_all c s in if x == c then rest else x ∷ rest

-- The result of B64Decode is not looked at.
unfoldable pub decode_into : Bytes → RecordTextReader → Parsed (Bytes × RecordTextReader)
decode_into tmp r = elim (b64_decode tmp []) [
  | decoded out ↦ parsed (out, r)
  | invalid out ↦ parsed (out, r)
  | length_error ↦ failed RecordText.length_error
  | out_of_fuel ↦ failed stuck
]

unfoldable pub xfr_blob : RecordTextReader → Parsed (Bytes × RecordTextReader)
xfr_blob r = do
  r' ← skip_spaces r
  decode_into (erase_all b' ' (take_while isbase64 r'.rest))
      (record r' { rest = drop_while isbase64 r'.rest })

unfoldable pub hextodec : ℕ → Parsed ℕ
hextodec val =
    if leb b'0' val && leb val b'9'
    then parsed (val - b'0')
    else if leb b'A' val && leb val b'F'
    then parsed (10 + (val - b'A'))
    else if leb b'a' val && leb val b'f'
    then parsed (10 + (val - b'a'))
    else failed record_text

-- HEXDecode; an odd number of characters ends in the last clause but one.
unfoldable pub hex_pairs : Bytes → Parsed Bytes
hex_pairs [] = parsed []
hex_pairs (a ∷ []) = parsed []
hex_pairs (a ∷ b ∷ s) = do
  high ← hextodec a
  low ← hextodec b
  val ← hex_pairs s
  parsed ((high * 16 + low) ∷ val)

unfoldable pub hex_decode : Bytes → Parsed Bytes
hex_decode s = if length s % 2 == 1 then failed record_text else hex_pairs s

unfoldable pub is_not_space : ℕ → Bool
is_not_space c = not (is_space c)

unfoldable pub xfr_hex_blob : RecordTextReader → Parsed (Bytes × RecordTextReader)
xfr_hex_blob r = do
  r' ← skip_spaces r
  val ← hex_decode (take_while is_not_space r'.rest)
  parsed (val, record r' { rest = drop_while is_not_space r'.rest })

unfoldable pub is_alnum : ℕ → Bool
is_alnum c = (is_digit c || (leb b'a' c && leb c b'z')) || (leb b'A' c && leb c b'Z')

unfoldable pub all_alnum : Bytes → Bool
all_alnum [] = true
all_alnum (c ∷ s) = is_alnum c && all_alnum s

-- The text behind a quote up to the next one, with its escapes; 34 is the quote.
unfoldable pub quoted : Bytes → Option (Bytes × Bytes)
quoted [] = none
quoted (c ∷ []) = if c == 34 then some ([], []) else none
quoted (c ∷ d ∷ rest) =
    let plain : Option (Bytes × Bytes) = elim (quoted (d ∷ rest)) [
      | none ↦ none
      | some (body, left) ↦ some (c ∷ body, left)
    ] in
    let escaped : Option (Bytes × Bytes) = elim (quoted rest) [
      | none ↦ none
      | some (body, left) ↦ some (c ∷ d ∷ body, left)
    ] in
    if c == 34 then some ([], d ∷ rest) else if c == b'\\' then escaped else plain

-- The loop of `xfrText`, a round for each text. A text without quotes is the last.
unfoldable pub text_loop : ℕ → Bool → Bytes → Bytes → Parsed (Bytes × Bytes)
text_loop fuel multi [] val = parsed (val, [])
text_loop zero multi (c ∷ rest) val = failed stuck
text_loop (suc fuel) multi (c ∷ rest) val =
    let val' = if length val == 0 then val else val ++ (b' ' ∷ []) in
    elim (drop_while is_space (c ∷ rest)) [
      | [] ↦ failed record_text
      | q ∷ body ↦ elim (q == 34) [
        | false ↦
            if all_alnum (q ∷ body)
            then parsed (val' ++ ((34 ∷ q ∷ body) ++ (34 ∷ [])), [])
            else failed record_text
        | true ↦ elim (quoted body) [
          | none ↦ failed record_text
          | some (text, left) ↦
              let val'' = val' ++ ((34 ∷ text) ++ (34 ∷ [])) in
              let more = text_loop fuel multi left val'' in
              if multi then more else parsed (val'', left)
        ]
      ]
    ]

unfoldable pub xfr_text : Bool → RecordTextReader → Parsed (Bytes × RecordTextReader)
xfr_text multi r = do
  (val, rest') ← text_loop (length r.rest) multi r.rest []
  parsed (val, record r { rest = rest' })
