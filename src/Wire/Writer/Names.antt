-- ===== src/Wire/Writer/Names.antt =====
-- A name that DNSPacketWriter::xfrLabel writes without compression is read back by
-- PacketReader::getLabel.
use powerdns_improved_lua.Prelude.{
  ℕ, ◌+◌, ◌^◌, ◌<◌, ◌≡◌, refl, ap, ◌∙◌, Bool, true, false, List, [], ◌∷◌, ◌++◌, length,
  length-append, ◌==◌, if◌then◌else◌, arith, append_assoc,
}
use powerdns_improved_lua.Name.{Bytes}
use powerdns_improved_lua.Wire.{ok}
use powerdns_improved_lua.Wire.Reader.{get_label, escaped}
use powerdns_improved_lua.Wire.Reader.Labels.{
  escape_label, dotted, AreLabels, label_seq, name_text, get_label-label_seq,
}
use powerdns_improved_lua.Wire.Parts.{label_parts, unescaped_something, write_parts}
use powerdns_improved_lua.Wire.Parts.Tokens.{label_parts-dotted}
use powerdns_improved_lua.Wire.Parts.Plain.{write_plain, text-AreWritten}
use powerdns_improved_lua.Wire.Writer.{PacketWriter, xfr_label}

-- What a name is on the wire, the zero byte at its end included.
unfoldable pub wire_name : List Bytes → Bytes
wire_name ls = label_seq ls ++ (0 ∷ [])

never : (b : Bool) → (if b then false else false) ≡ false
never true = refl
never false = refl

-- A text of two bytes at least is no root.
xfr_label_parts :
    (label bytes : Bytes) (pw : PacketWriter) (lmap : List (Bytes × ℕ))
    → 1 < length label
    → write_parts false
        (unescaped_something label)
        label
        (length pw.content + length pw.pending + pw.stuff)
        pw.labelmap
        (label_parts false 0 0 label)
      ≡ ok (bytes, lmap)
    → xfr_label label false pw ≡ ok (record pw { pending = pw.pending ++ bytes; labelmap = lmap })
unfolding xfr_label
xfr_label_parts label bytes pw lmap h e =
    let root : (length label == 1) ≡ false = ground arith in rw (root, never pw.canonic, e) refl

xfr_label_root :
    (pw : PacketWriter)
    → xfr_label (b'.' ∷ []) false pw ≡ ok (record pw { pending = pw.pending ++ (0 ∷ []) })
unfolding xfr_label
xfr_label_root pw = refl

label_text_long : (l : Bytes) → 0 < length l → 0 < length (escape_label l)
unfolding escape_label escaped
label_text_long [] h = h
label_text_long (c ∷ l) h = ground (arith, length-append (escaped c) (escape_label l))

pub name_text-cons : (l : Bytes) (ls : List Bytes) → name_text (l ∷ ls) ≡ dotted (l ∷ ls)
unfolding name_text
name_text-cons l ls = refl

pub name_text_long : (l : Bytes) (ls : List Bytes) → 0 < length l → 1 < length (dotted (l ∷ ls))
unfolding dotted
name_text_long l ls h =
    omega (arith, label_text_long l h, length-append (escape_label l) (b'.' ∷ dotted ls))

-- Without compression `xfrLabel` appends the labels of the name, each behind its length, and the
-- zero byte, and changes at most the label map besides.
pub xfr_label-name_text :
    (ls : List Bytes) (pw : PacketWriter)
    → AreLabels ls
    → (lmap : List (Bytes × ℕ)) × (xfr_label (name_text ls) false pw
        ≡ ok (record pw { pending = pw.pending ++ wire_name ls; labelmap = lmap }))
xfr_label-name_text [] pw h =
    (pw.labelmap, unfold name_text wire_name label_seq in xfr_label_root pw)
xfr_label-name_text (l ∷ ls) pw (h, hs) =
    let label = dotted (l ∷ ls) in
    let pos = length pw.content + length pw.pending + pw.stuff in
    let (lmap, written) =
      write_plain (l ∷ ls) (unescaped_something label) label [] pos pw.labelmap refl
        (text-AreWritten (l ∷ ls) (h, hs)) in
    let parts = label_parts-dotted (l ∷ ls) 0 in
    (
      lmap,
      ap (λ (t : Bytes). xfr_label t false pw) (name_text-cons l ls)
          ∙ xfr_label_parts label (wire_name (l ∷ ls)) pw lmap (name_text_long l ls h.0)
              (rw parts (unfold wire_name in written)),
    )

-- A name that is written without compression is read back, behind whatever stands before it and
-- whatever follows it: the same text, and the position behind the name. The labels have 1 to 191
-- bytes, of any value, and the packet fits a uint16_t.
pub get_label-xfr_label :
    (ls : List Bytes) (pw : PacketWriter) (pre rest : Bytes)
    → AreLabels ls
    → length (pre ++ (wire_name ls ++ rest)) < 2 ^ 16
    → (pw' : PacketWriter) × (xfr_label (name_text ls) false pw ≡ ok pw')
      × (pw'.pending ≡ pw.pending ++ wire_name ls)
      × (pw'.content ≡ pw.content)
      × (get_label (pre ++ (wire_name ls ++ rest)) (length pre)
          ≡ ok (name_text ls, length (pre ++ wire_name ls)))
get_label-xfr_label ls pw pre rest h small =
    let (lmap, written) = xfr_label-name_text ls pw h in
    let regroup : wire_name ls ++ rest ≡ label_seq ls ++ (0 ∷ rest) =
      unfold wire_name in append_assoc (label_seq ls) (0 ∷ []) rest in
    let place : (pre ++ label_seq ls) ++ (0 ∷ []) ≡ pre ++ wire_name ls =
      unfold wire_name in append_assoc pre (label_seq ls) (0 ∷ []) in
    let small' : length (pre ++ (label_seq ls ++ (0 ∷ rest))) < 2 ^ 16 = rw regroup at small in
    (
      record pw { pending = pw.pending ++ wire_name ls; labelmap = lmap },
      written,
      refl,
      refl,
      rw regroup (
          get_label-label_seq ls pre rest h small'
          ∙ ap (λ (t : Bytes). ok (name_text ls, length t)) place),
    )
