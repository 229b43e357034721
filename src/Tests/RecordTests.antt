-- ===== src/Tests/RecordTests.antt =====
-- The text of records: runs and instances.
use powerdns_improved_lua.Prelude.{
  ℕ, ◌≡◌, ◌^◌, refl, true, List, [], ◌∷◌, ◌++◌, length, drop, ltb, if◌then◌else◌, arith,
}
use powerdns_improved_lua.Name.{Bytes, AreBytes}
use powerdns_improved_lua.RecordText.{parsed, failed, record_text, is_digit, is_space}
use powerdns_improved_lua.RecordText.Reader as Reader
use powerdns_improved_lua.RecordText.Reader.{
  is_not_space, isbase64, label_span, complete, skip_spaces,
}
use powerdns_improved_lua.RecordText.Writer as Writer
use powerdns_improved_lua.RecordText.Writer.{decimal, next_field, has_blank, blank_escaped}
use powerdns_improved_lua.RecordText.Fields.{in_front, stops}
use powerdns_improved_lua.RecordText.Numbers.{number, wrapped, xfr_int_lem}
use powerdns_improved_lua.RecordText.Addresses.{ends, xfr_ip-xfr_ip}
use powerdns_improved_lua.RecordText.Blobs.{xfr_blob-xfr_blob}
use powerdns_improved_lua.RecordText.Texts.{is_body, line, all_bodies, xfr_text-line}
use powerdns_improved_lua.Text.{drop_while}

abbrev mx : Bytes
mx = b'1' ∷ b'0' ∷ []

abbrev zone : Bytes
zone = b'n' ∷ b'l' ∷ []

abbrev next_name : Bytes
next_name = b' ' ∷ b'm' ∷ []

abbrev salt : Bytes
salt = 171 ∷ 0 ∷ 255 ∷ []

-- 192.168.0.1 in the memory of a machine with the lowest byte first.
abbrev address : ℕ
address = 16820416

salt-AreBytes : AreBytes salt
salt-AreBytes = (omega arith, (omega arith, (omega arith, tt)))

stops_run : stops is_digit next_name ≡ true
unfolding stops is_digit
stops_run = refl

stops_plain_run : stops is_not_space next_name ≡ true
unfolding stops is_not_space is_space
stops_plain_run = refl

stops_code_run : stops isbase64 [] ≡ true
unfolding stops
stops_code_run = refl

ends_run : ends next_name ≡ true
unfolding ends is_space
ends_run = refl

-- 4294967301 is 2 ^ 32 + 5: a preference of 5.
wrapped_run : wrapped 4294967301 ≡ 5
unfolding wrapped
wrapped_run = refl

-- A name that ends in no dot gets the zone, one that does loses the dot.
label_run :
    Reader.xfr_label (record { rest = b' ' ∷ b'm' ∷ b'\\' ∷ b' ' ∷ b'x' ∷ b' ' ∷ []; zone = zone })
    ≡ parsed (
      b'm' ∷ b'\\' ∷ b' ' ∷ b'x' ∷ b'.' ∷ b'n' ∷ b'l' ∷ [],
      record { rest = b' ' ∷ []; zone = zone },
    )
unfolding Reader.xfr_label skip_spaces drop_while is_space label_span complete is_digit
label_run = refl

-- A backslash in a name with a space is not doubled, and a tab becomes a space.
label_writer_run :
    Writer.xfr_label (b'a' ∷ 9 ∷ b' ' ∷ b'\\' ∷ []) []
    ≡ b'a' ∷ b'\\' ∷ b' ' ∷ b'\\' ∷ b' ' ∷ b'\\' ∷ []
unfolding Writer.xfr_label next_field has_blank blank_escaped is_space
label_writer_run = refl

abbrev texts : List Bytes
texts = (b'v' ∷ b'\\' ∷ 34 ∷ []) ∷ [] ∷ (b'x' ∷ b' ' ∷ []) ∷ []

bodies_run : all_bodies texts ≡ true
unfolding all_bodies is_body
bodies_run = refl

xfr_int_lem_example :
    (Reader.xfr_32bit_int (in_front zone mx (decimal 20 4294967301) next_name)
      ≡ number (wrapped 4294967301) zone next_name)
    × (Reader.xfr_16bit_int (in_front zone mx (decimal 20 4294967301) next_name) ≡ (
        if ltb (wrapped 4294967301) (2 ^ 16)
        then number (wrapped 4294967301) zone next_name
        else failed record_text))
    × (Reader.xfr_8bit_int (in_front zone mx (decimal 20 4294967301) next_name) ≡ (
        if ltb (wrapped 4294967301) (2 ^ 8)
        then number (wrapped 4294967301) zone next_name
        else failed record_text))
xfr_int_lem_example = xfr_int_lem 4294967301 zone mx next_name (omega arith) stops_run

xfr_ip-xfr_ip_example :
    Reader.xfr_ip
      (record { rest = drop (length mx) (Writer.xfr_ip address mx) ++ next_name; zone = zone })
    ≡ number address zone next_name
xfr_ip-xfr_ip_example = xfr_ip-xfr_ip address zone mx next_name (omega arith) ends_run

xfr_blob-xfr_blob_example :
    Reader.xfr_blob
      (record { rest = drop (length mx) (Writer.xfr_blob salt mx) ++ []; zone = zone })
    ≡ parsed (salt, record { rest = []; zone = zone })
xfr_blob-xfr_blob_example =
    xfr_blob-xfr_blob salt zone mx [] salt-AreBytes (omega arith) stops_code_run

xfr_text-line_example :
    Reader.xfr_text true (record { rest = line texts; zone = zone })
    ≡ parsed (line texts, record { rest = []; zone = zone })
xfr_text-line_example =
    xfr_text-line (b'v' ∷ b'\\' ∷ 34 ∷ []) ([] ∷ (b'x' ∷ b' ' ∷ []) ∷ []) zone bodies_run
