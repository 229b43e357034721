-- ===== src/Wire/Writer.antt =====
-- `DNSPacketWriter` of pdns/pdns/dnswriter.hh and pdns/pdns/dnswriter.cc.
pub mod Records
pub mod Rollback
pub mod Names
use powerdns_improved_lua.Prelude.{
  ℕ, zero, suc, ◌+◌, ◌-◌, ◌*◌, ◌/◌, ◌%◌, ◌^◌, Bool, true, false, not, ◌&&◌, ◌||◌, List, [], ◌∷◌,
  ◌++◌, length, take, drop, get_or, set, leb, ltb, ◌==◌, if◌then◌else◌, Option, none, some,
}
use powerdns_improved_lua.Name.{Bytes, pdns_iequals}
use powerdns_improved_lua.Wire.Numbers.{bytes16, bytes32, bytes48}
use powerdns_improved_lua.Wire.Parts.{label_parts, unescaped_something, write_parts}
use powerdns_improved_lua.Wire.{Result, ok, err, moad, ◌>>=◌}

pub data Place : Type 0 where
  answer authority additional : Place

pub record PacketWriter : Type 0 where
  pub content : Bytes
  pub pending : Bytes
  pub qname : Bytes
  pub recordqname : Bytes
  pub recordqtype : ℕ
  pub recordqclass : ℕ
  pub recordttl : ℕ
  pub labelmap : List (Bytes × ℕ)
  pub stuff : ℕ
  pub sor : ℕ
  pub rollbackmarker : ℕ
  pub recordplace : Place
  pub canonic : Bool

unfoldable pub append_pending : Bytes → PacketWriter → PacketWriter
append_pending bytes pw = record pw { pending = pw.pending ++ bytes }

unfoldable pub xfr_48bit_int : ℕ → PacketWriter → PacketWriter
unfolding append_pending bytes48
xfr_48bit_int v = append_pending (bytes48 v)

unfoldable pub xfr_32bit_int : ℕ → PacketWriter → PacketWriter
unfolding append_pending bytes32
xfr_32bit_int v = append_pending (bytes32 v)

unfoldable pub xfr_16bit_int : ℕ → PacketWriter → PacketWriter
unfolding append_pending bytes16
xfr_16bit_int v = append_pending (bytes16 v)

unfoldable pub xfr_8bit_int : ℕ → PacketWriter → PacketWriter
unfolding append_pending
xfr_8bit_int v = append_pending (v % 256 ∷ [])

unfoldable pub xfr_blob : Bytes → PacketWriter → PacketWriter
unfolding append_pending
xfr_blob blob = append_pending blob

-- `xfrLabel`. The position counts what is still to be written before the record, `stuff`.
unfoldable pub xfr_label : Bytes → Bool → PacketWriter → Result PacketWriter
unfolding append_pending
xfr_label label compress pw =
    let compress' = if pw.canonic then false else compress in
    let parts = label_parts false 0 0 label in
    let pos = length pw.content + length pw.pending + pw.stuff in
    let root = length label == 1 && get_or label 0 0 == b'.' in
    let written =
      write_parts compress' (unescaped_something label) label pos pw.labelmap parts
      >>= λ (bytes, lmap). ok (record (append_pending bytes pw) { labelmap = lmap }) in
    if root then ok (append_pending (0 ∷ []) pw) else written

-- A uint16_t at an index of the packet, one higher.
unfoldable pub bump16 : ℕ → Bytes → Bytes
bump16 i content =
    let v = (get_or content i 0 * 256 + get_or content (i + 1) 0 + 1) % 2 ^ 16 in
    set (set content i (v / 256)) (i + 1) (v % 256)

-- The place of the counter of a section in the packet's header.
unfoldable pub count_index : Place → ℕ
count_index answer = 6
count_index authority = 8
count_index additional = 10

-- The bytes of a `dnsrecordheader`.
unfoldable pub record_header : PacketWriter → Bytes
unfolding bytes16 bytes32
record_header pw =
    bytes16 pw.recordqtype
    ++ (bytes16 pw.recordqclass ++ (bytes32 pw.recordttl ++ bytes16 (length pw.pending)))

unfoldable pub commit : PacketWriter → Result PacketWriter
commit pw =
    let written = (pw.content ++ record_header pw) ++ pw.pending in
    if pw.stuff == 0xffff && (not (length pw.content == pw.sor) || not (length pw.pending == 0))
    then err moad
    else ok (record pw {
      content = bump16 (count_index pw.recordplace) written;
      stuff = 0;
      pending = [];
    })

-- The name of a record: a pointer to the question where the names are equal, else the label.
unfoldable pub start_name : Bytes → PacketWriter → Result PacketWriter
start_name name pw = do
  let same = ok (record pw { content = pw.content ++ (0xc0 ∷ 0x0c ∷ []) })
  let other = xfr_label name true pw >>= λ pw'.
      ok (record pw' { content = pw'.content ++ pw'.pending; pending = [] })
  if pdns_iequals pw.qname name then same else other

-- `startRecord` once nothing is pending. 10 is sizeof(dnsrecordheader).
unfoldable pub begin_record : Bytes → ℕ → ℕ → ℕ → Place → PacketWriter → Result PacketWriter
begin_record name qtype ttl qclass place pw = do
  pw' ← start_name name (record pw {
    recordqname = name;
    recordqtype = qtype;
    recordqclass = qclass;
    recordttl = ttl;
    recordplace = place;
    stuff = 0;
    rollbackmarker = length pw.content % 2 ^ 16;
  })
  ok (record pw' { stuff = 10; sor = (length pw'.content + 10) % 2 ^ 16 })

unfoldable pub start_record : Bytes → ℕ → ℕ → ℕ → Place → PacketWriter → Result PacketWriter
start_record name qtype ttl qclass place pw = do
  let committed = commit pw
  pw' ← if not (length pw.pending == 0) then committed else ok pw
  begin_record name qtype ttl qclass place pw'

unfoldable pub rollback : PacketWriter → PacketWriter
rollback pw = record pw { content = take pw.rollbackmarker pw.content; pending = []; stuff = 0 }

-- `size` is a uint16_t.
unfoldable pub size : PacketWriter → ℕ
size pw = (length pw.content + pw.stuff + length pw.pending) % 2 ^ 16

unfoldable pub get_records : PacketWriter → Bytes
get_records pw = drop pw.sor pw.content

-- The twelve bytes of the header with the question counted: the opcode stands above the bits rd, tc
-- and aa of the third byte.
unfoldable pub initial_header : ℕ → Bytes
initial_header opcode = 0 ∷ 0 ∷ opcode % 16 * 8 ∷ 0 ∷ 0 ∷ 1 ∷ 0 ∷ 0 ∷ 0 ∷ 0 ∷ 0 ∷ 0 ∷ []

-- The constructor. `raw` gives the fields that it leaves without a value: `sor`, `rollbackmarker`
-- and those of the record.
unfoldable pub new_writer : PacketWriter → Bytes → ℕ → ℕ → ℕ → Result PacketWriter
unfolding initial_header bytes16 xfr_label
new_writer raw qname qtype qclass opcode = do
  pw ← xfr_label qname false (record raw {
    content = initial_header opcode;
    pending = [];
    qname = qname;
    labelmap = [];
    stuff = 0;
    canonic = false;
  })
  ok (record pw {
    content = pw.content ++ (pw.pending ++ (bytes16 qtype ++ bytes16 qclass));
    pending = [];
    stuff = 0xffff;
  })

unfoldable pub write_options : List (ℕ × Bytes) → PacketWriter → PacketWriter
unfolding xfr_16bit_int xfr_blob
write_options [] pw = pw
write_options ((code, value) ∷ options) pw =
    write_options options (xfr_blob value (xfr_16bit_int (length value) (xfr_16bit_int code pw)))

-- The ttl of an OPT record holds the extended rcode, the version 0 and the flags; 41 is ns_t_opt.
unfoldable pub add_opt : ℕ → ℕ → ℕ → List (ℕ × Bytes) → PacketWriter → Result PacketWriter
unfolding start_record write_options
add_opt udpsize ext_rcode z options pw = do
  pw' ← start_record [] 41 (ext_rcode % 256 * 2 ^ 24 + z % 2 ^ 16) udpsize additional pw
  ok (write_options options pw')
