-- ===== src/Wire/Encode.antt =====
-- `EncodeDNSLabel` of pdns/pdns/dnsparser.cc: a name to its wire format, without a packet.
pub mod Names
use powerdns_improved_lua.Prelude.{
  ℕ, ◌%◌, Bool, true, false, ◌&&◌, List, [], ◌∷◌, ◌++◌, length, get_or, ◌==◌, if◌then◌else◌,
}
use powerdns_improved_lua.Name.{Bytes}
use powerdns_improved_lua.Wire.Parts.{label_parts, unescaped_something, replace_escape, part_text}

-- The two replacements, in the other order than in xfrLabel.
unfoldable pub encode_unescape : Bytes → Bytes
encode_unescape part = replace_escape b'.' (replace_escape b'\\' part)

-- The loop over the parts, with and without escapes.
unfoldable pub encode_parts : Bool → Bytes → List (ℕ × ℕ) → Bytes
encode_parts unescaped input [] = 0 ∷ []
encode_parts unescaped input ((first, second) ∷ parts) =
    let part = part_text input first second in
    let raw = if unescaped then encode_unescape part else part in
    length raw % 256 ∷ (raw ++ encode_parts unescaped input parts)

unfoldable pub encode_dns_label : Bytes → Bytes
encode_dns_label input =
    let root = length input == 1 && get_or input 0 0 == b'.' in
    let encoded = encode_parts (unescaped_something input) input (label_parts false 0 0 input) in
    if root then 0 ∷ [] else encoded
