-- ===== src/Tests/CodecTests.antt =====
-- Base64 and type bitmaps: runs and instances.
use powerdns_improved_lua.Prelude.{false, ℕ, ◌≡◌, refl, List, [], ◌∷◌, not, some, arith}
use powerdns_improved_lua.Name.{Bytes, AreBytes}
use powerdns_improved_lua.Base32.{
  to_base32_hex, to_loop, stuffing_of, digits_from, extract_bits, base32hex, from_base32_hex,
  from_loop, set_bits, or_at, unbase32hex,
}
use powerdns_improved_lua.Base64.{
  b64_decode, base64_encode, decoded, length_error, b64_encode1, b64_decode1, decode_loop,
  decode_group, trim, three_bytes,
}
use powerdns_improved_lua.Base64.RoundTrip.{b64_decode-base64_encode}
use powerdns_improved_lua.Base64.Errors.{refuses, all_pass, b64_decode-refuses}
use powerdns_improved_lua.Nsec.Packet.{FitsNsec3, IsNsec3Read, nsec3_make-nsec3_to_packet}
use powerdns_improved_lua.Wire.Writer.{PacketWriter, answer}
use powerdns_improved_lua.Nsec.{
  Nsec3Record, nsec3_to_packet, nsec_bitmap, mark, set_bit, last_marked,
}
use powerdns_improved_lua.Nsec.RoundTrip.{Types, IsReadAs, read_bitmap-nsec_bitmap}

abbrev text : Bytes
text = b'n' ∷ b's' ∷ 255 ∷ 0 ∷ []

text-AreBytes : AreBytes text
text-AreBytes = (omega arith, (omega arith, (omega arith, (omega arith, tt))))

encode_run : base64_encode text ≡ b'b' ∷ b'n' ∷ b'P' ∷ b'/' ∷ b'A' ∷ b'A' ∷ b'=' ∷ b'=' ∷ []
unfolding base64_encode b64_encode1
encode_run = refl

-- Four "=" shorten three bytes by four.
padding_run : b64_decode (b'=' ∷ b'=' ∷ b'=' ∷ b'=' ∷ []) [] ≡ length_error
unfolding b64_decode decode_loop decode_group b64_decode1 trim three_bytes
padding_run = refl

b64_decode-base64_encode_example : b64_decode (base64_encode text) (1 ∷ []) ≡ decoded (1 ∷ text)
b64_decode-base64_encode_example = b64_decode-base64_encode text (1 ∷ []) text-AreBytes

b64_decode-refuses_example : refuses (b64_decode text []) ≡ not (all_pass text)
b64_decode-refuses_example = b64_decode-refuses text [] text-AreBytes

-- A, NS, SOA and NSEC.
abbrev types : List ℕ
types = 1 ∷ 2 ∷ 6 ∷ 47 ∷ []

types-Types : Types 0 types
types-Types = (
  omega arith,
  omega arith,
  (omega arith, omega arith, (omega arith, omega arith, (omega arith, omega arith, tt))),
)

bitmap_run : nsec_bitmap types ≡ some (0 ∷ 6 ∷ 98 ∷ 0 ∷ 0 ∷ 0 ∷ 0 ∷ 1 ∷ [])
unfolding nsec_bitmap mark set_bit last_marked
bitmap_run = refl

read_bitmap-nsec_bitmap_example : IsReadAs types (nsec_bitmap types)
read_bitmap-nsec_bitmap_example = read_bitmap-nsec_bitmap types types-Types

-- A record with a salt of two bytes, between two bytes of other data.
abbrev hashed : Nsec3Record
hashed = record {
  algorithm = 1;
  flags = 0;
  iterations = 300;
  salt = 171 ∷ 205 ∷ [];
  nexthash = 1 ∷ 2 ∷ 3 ∷ [];
  types = types;
}

hashed-FitsNsec3 : FitsNsec3 hashed
hashed-FitsNsec3 = record {
  algorithm = omega arith;
  flags = omega arith;
  iterations = omega arith;
  salt = omega arith;
  nexthash = omega arith;
}

abbrev writer : PacketWriter
writer = record {
  content = 0 ∷ 0 ∷ 0 ∷ 0 ∷ 0 ∷ 1 ∷ 0 ∷ 0 ∷ 0 ∷ 0 ∷ 0 ∷ 0 ∷ 0 ∷ 0 ∷ 1 ∷ 0 ∷ 1 ∷ [];
  pending = [];
  qname = (b'.' ∷ []);
  recordqname = [];
  recordqtype = 0;
  recordqclass = 0;
  recordttl = 0;
  labelmap = [];
  stuff = 0xffff;
  sor = 0;
  rollbackmarker = 0;
  recordplace = answer;
  canonic = false;
}

nsec3_make-nsec3_to_packet_example :
    IsNsec3Read hashed (7 ∷ []) (9 ∷ []) (nsec3_to_packet hashed writer)
nsec3_make-nsec3_to_packet_example =
    nsec3_make-nsec3_to_packet hashed writer (7 ∷ []) (9 ∷ []) hashed-FitsNsec3 types-Types refl
      (omega arith)

-- "fo" of RFC 4648, and what its text is read as: a zero byte too many.
base32_run :
    to_base32_hex (b'f' ∷ b'o' ∷ []) ≡ b'C' ∷ b'P' ∷ b'N' ∷ b'G' ∷ b'=' ∷ b'=' ∷ b'=' ∷ b'=' ∷ []
unfolding to_base32_hex to_loop stuffing_of digits_from extract_bits base32hex
base32_run = refl

base32_back_run :
    from_base32_hex (b'C' ∷ b'P' ∷ b'N' ∷ b'G' ∷ b'=' ∷ b'=' ∷ b'=' ∷ b'=' ∷ [])
    ≡ b'f' ∷ b'o' ∷ 0 ∷ []
unfolding from_base32_hex from_loop set_bits or_at unbase32hex
base32_back_run = refl

-- "fooba" comes back as it was.
base32_whole_run :
    from_base32_hex (to_base32_hex (b'f' ∷ b'o' ∷ b'o' ∷ b'b' ∷ b'a' ∷ []))
    ≡ b'f' ∷ b'o' ∷ b'o' ∷ b'b' ∷ b'a' ∷ []
unfolding to_base32_hex to_loop stuffing_of digits_from extract_bits base32hex from_base32_hex
    from_loop set_bits or_at unbase32hex
base32_whole_run = refl
