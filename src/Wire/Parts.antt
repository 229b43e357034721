-- ===== src/Wire/Parts.antt =====
-- The parts of a name and what `xfrLabel` writes for them: labeltokUnescape and the loop of
-- DNSPacketWriter::xfrLabel in pdns/pdns/dnswriter.cc.
pub mod Tokens
pub mod Plain
use powerdns_improved_lua.Prelude.{
  ℕ, zero, suc, ◌+◌, ◌-◌, ◌*◌, ◌/◌, ◌%◌, ◌^◌, Bool, true, false, not, ◌&&◌, ◌||◌, List, [], ◌∷◌,
  ◌++◌, length, take, drop, get_or, set, leb, ltb, ◌==◌, if◌then◌else◌, Option, none, some,
}
use powerdns_improved_lua.Name.{Bytes, pdns_iequals}
use powerdns_improved_lua.Text.{take_while}
use powerdns_improved_lua.Wire.{Result, ok, err, moad, ◌>>=◌}

-- `labeltokUnescape`: the parts of a name as offsets of their begin and end. `skip` says that the
-- byte before was a backslash; where the text ends with one, the end lies one byte further.
unfoldable pub label_parts : Bool → ℕ → ℕ → Bytes → List (ℕ × ℕ)
label_parts skip pos lpos [] =
    let end = if skip then pos + 1 else pos in if ltb lpos end then (lpos, end) ∷ [] else []
label_parts true pos lpos (c ∷ label) = label_parts false (pos + 1) lpos label
label_parts false pos lpos (c ∷ label) =
    let dot = c == b'.' in
    let rest = label_parts (c == b'\\') (pos + 1) (if dot then pos + 1 else lpos) label in
    if dot then (lpos, pos) ∷ rest else rest

-- The result of `labeltokUnescape`: whether there was a backslash.
unfoldable pub unescaped_something : Bytes → Bool
unescaped_something [] = false
unescaped_something (c ∷ label) = c == b'\\' || unescaped_something label

-- boost::replace_all of a backslash and `b` by `b`.
unfoldable pub replace_escape : ℕ → Bytes → Bytes
replace_escape b [] = []
replace_escape b (x ∷ []) = x ∷ []
replace_escape b (x ∷ y ∷ s) =
    let hit = b ∷ replace_escape b s in
    let miss = x ∷ replace_escape b (y ∷ s) in if x == b'\\' && y == b then hit else miss

unfoldable pub unescape_part : Bytes → Bytes
unfolding replace_escape
unescape_part part = replace_escape b'\\' (replace_escape b'.' part)

-- string(label.c_str() + first, second - first); behind the text lies its zero byte.
unfoldable pub part_text : Bytes → ℕ → ℕ → Bytes
part_text label first second = take (second - first) (drop first (label ++ (0 ∷ [])))

-- One part: its length byte and its bytes, or the exception for an overly large label.
unfoldable pub part_bytes : Bool → Bytes → Result Bytes
unfolding unescape_part
part_bytes true part =
    let raw = unescape_part part in if ltb 255 (length raw) then err moad else ok (length raw ∷ raw)
part_bytes false part = ok (length part % 256 ∷ part)

-- `find` over the label map, without regard to case.
unfoldable pub find_label : List (Bytes × ℕ) → Bytes → Option ℕ
find_label [] label = none
find_label ((name, pos) ∷ lmap) label =
    if pdns_iequals name label then some pos else find_label lmap label

-- The text that the label map holds for a part: up to the end without its trailing dot, or up to
-- the first zero byte.
unfoldable pub chopped_at : Bytes → ℕ → Bytes
unfolding take_while
chopped_at label first =
    if not (length label == 0) && get_or label (length label - 1) 0 == b'.'
    then take (length label - first - 1) (drop first label)
    else take_while (λ c. not (c == 0)) (drop first label)

-- Bytes before the rest of what is appended.
unfoldable pub append_parts :
    Bytes → Result (Bytes × List (Bytes × ℕ)) → Result (Bytes × List (Bytes × ℕ))
append_parts bytes (ok (rest, lmap)) = ok (bytes ++ rest, lmap)
append_parts bytes (err e) = err e

-- The loop of `xfrLabel` over the parts: what is appended to the record, and the label map. `pos` is
-- the place in the packet that the next byte will have.
unfoldable pub write_parts :
    Bool → Bool → Bytes → ℕ → List (Bytes × ℕ) → List (ℕ × ℕ) → Result (Bytes × List (Bytes × ℕ))
unfolding part_bytes part_text find_label chopped_at append_parts
write_parts compress unescaped label pos lmap [] = ok (0 ∷ [], lmap)
write_parts compress unescaped label pos lmap ((first, second) ∷ parts) =
    let chopped = chopped_at label first in
    let known = if compress then find_label lmap chopped else none in
    let lmap' = if ltb pos 16384 then lmap ++ ((chopped, pos) ∷ []) else lmap in
    let write : Result (Bytes × List (Bytes × ℕ)) =
      part_bytes unescaped (part_text label first second) >>= λ bytes.
      append_parts bytes (write_parts compress unescaped label (pos + length bytes) lmap' parts) in
    elim known [
      | some offset ↦ ok ((offset / 256 % 64 + 192) ∷ offset % 256 ∷ [], lmap)
      | none ↦ write
    ]
