-- ===== src/RecordText/Fields.antt =====
-- Fields of a text of pdns/pdns/rcpgenerator.cc: where one starts and where it ends.
use powerdns_improved_lua.Prelude.{
  ℕ, ◌<◌, ◌≡◌, refl, ap, ◌∙◌, Bool, true, false, not, ◌&&◌, [], ◌∷◌, ◌++◌, length, arith, drop,
  append_assoc,
}
use powerdns_improved_lua.Name.{Bytes}
use powerdns_improved_lua.Text.{drop_while, take_while}
use powerdns_improved_lua.RecordText.{parsed, is_space}
use powerdns_improved_lua.RecordText.Reader.{RecordTextReader, skip_spaces}
use powerdns_improved_lua.RecordText.Writer.{next_field}

unfoldable pub all_in : (ℕ → Bool) → Bytes → Bool
all_in p [] = true
all_in p (c ∷ s) = p c && all_in p s

-- A text that does not go on with such a character.
unfoldable pub stops : (ℕ → Bool) → Bytes → Bool
stops p [] = true
stops p (c ∷ s) = not (p c)

pub take_while-append :
    (p : ℕ → Bool) (xs tail : Bytes)
    → all_in p xs ≡ true
    → stops p tail ≡ true
    → take_while p (xs ++ tail) ≡ xs
unfolding take_while all_in stops
take_while-append p [] [] h k = refl
take_while-append p [] (c ∷ tail) h k = ground arith
take_while-append p (x ∷ xs) tail h k = ground (arith, take_while-append p xs tail)

pub drop_while-append :
    (p : ℕ → Bool) (xs tail : Bytes)
    → all_in p xs ≡ true
    → stops p tail ≡ true
    → drop_while p (xs ++ tail) ≡ tail
unfolding drop_while all_in stops
drop_while-append p [] [] h k = refl
drop_while-append p [] (c ∷ tail) h k = ground arith
drop_while-append p (x ∷ xs) tail h k = ground (arith, drop_while-append p xs tail)

pub drop-length : (s t : Bytes) → drop (length s) (s ++ t) ≡ t
drop-length [] t = refl
drop-length (x ∷ s) t = drop-length s t

-- A reader in front of a field that is written behind `string`.
abbrev pub in_front : Bytes → Bytes → Bytes → Bytes → RecordTextReader
in_front zone string field tail = record {
  rest = drop (length string) (next_field string ++ field) ++ tail;
  zone = zone;
}

separator : Bytes → Bytes
separator [] = []
separator (c ∷ string) = b' ' ∷ []

next_field-separator : (string : Bytes) → next_field string ≡ string ++ separator string
unfolding next_field separator
next_field-separator [] = refl
next_field-separator (c ∷ string) = ground arith

field_rest :
    (string field : Bytes)
    → drop (length string) (next_field string ++ field) ≡ separator string ++ field
field_rest string field =
    ap (λ (t : Bytes). drop (length string) (t ++ field)) (next_field-separator string)
    ∙ ap (drop (length string)) (append_assoc string (separator string) field)
    ∙ drop-length string (separator string ++ field)

skip_separator :
    (zone string : Bytes) (x : ℕ) (rest : Bytes)
    → is_space x ≡ false
    → skip_spaces (record { rest = separator string ++ (x ∷ rest); zone = zone })
      ≡ parsed (record { rest = x ∷ rest; zone = zone })
unfolding skip_spaces separator drop_while is_space
skip_separator zone [] x rest h = ground arith
skip_separator zone (c ∷ string) x rest h = ground arith

pub skip_spaces-field :
    (zone string : Bytes) (x : ℕ) (field tail : Bytes)
    → is_space x ≡ false
    → skip_spaces (in_front zone string (x ∷ field) tail)
      ≡ parsed (record { rest = x ∷ field ++ tail; zone = zone })
skip_spaces-field zone string x field tail h =
    ap (λ (t : Bytes). skip_spaces (record { rest = t ++ tail; zone = zone }))
      (field_rest string (x ∷ field))
    ∙ ap (λ (t : Bytes). skip_spaces (record { rest = t; zone = zone }))
        (append_assoc (separator string) (x ∷ field) tail)
    ∙ skip_separator zone string x (field ++ tail) h

pub skip_spaces-in_front :
    (zone string field tail : Bytes)
    → stops is_space field ≡ true
    → 0 < length field
    → skip_spaces (in_front zone string field tail)
      ≡ parsed (record { rest = field ++ tail; zone = zone })
unfolding stops
skip_spaces-in_front zone string [] tail h n = absurd (omega arith)
skip_spaces-in_front zone string (x ∷ field) tail h n =
    skip_spaces-field zone string x field tail (ground arith)
