-- ===== src/Tests/WireTests.antt =====
-- Packets: runs of the reader and the writer, and the theorems at concrete packets.
use powerdns_improved_lua.Prelude.{◌+◌, ◌≡◌, refl, false, List, [], ◌∷◌, ◌++◌, arith, length, drop}
use powerdns_improved_lua.Name.{Bytes, pdns_iequals, to_lower, dns_tolower}
use powerdns_improved_lua.Wire.{ok, err, moad, at}
use powerdns_improved_lua.Wire.Reader.{
  get_label, get_label_from_content, label_loop, label_bytes, read_pointer, escaped,
}
use powerdns_improved_lua.Wire.Reader.Total.{InPacket, get_label_in}
use powerdns_improved_lua.Wire.Reader.Labels.{
  AreLabels, label_seq, dotted, name_text, escape_label, get_label_from_content-pointer,
}
use powerdns_improved_lua.Wire.Writer.{
  answer, authority, PacketWriter, new_writer, xfr_label, append_pending, commit, start_name,
  additional, begin_record, start_record, rollback, record_header, bump16, count_index,
}
use powerdns_improved_lua.Wire.Encode.{encode_dns_label}
use powerdns_improved_lua.Wire.Encode.Names.{encode_dns_label-name_text}
use powerdns_improved_lua.Wire.Writer.Names.{wire_name, get_label-xfr_label}
use powerdns_improved_lua.Wire.Writer.Records.{section_count, counted, commit_lem}
use powerdns_improved_lua.Wire.Writer.Rollback.{before_name, written_out, rollback-start_record}

-- The labels of "a\.b.nl.": the first has a dot in it.
abbrev odd_labels : List Bytes
odd_labels = (b'a' ∷ b'.' ∷ b'b' ∷ []) ∷ (b'n' ∷ b'l' ∷ []) ∷ []

odd_labels-AreLabels : AreLabels odd_labels
odd_labels-AreLabels = omega arith

abbrev root_name : Bytes
root_name = b'.' ∷ []

-- A writer whose packet has its header and the question for the root.
abbrev asked : PacketWriter
asked = record {
  content = 0 ∷ 0 ∷ 0 ∷ 0 ∷ 0 ∷ 1 ∷ 0 ∷ 0 ∷ 0 ∷ 0 ∷ 0 ∷ 0 ∷ 0 ∷ 0 ∷ 1 ∷ 0 ∷ 1 ∷ [];
  pending = [];
  qname = root_name;
  recordqname = [];
  recordqtype = 0;
  recordqclass = 0;
  recordttl = 0;
  labelmap = [];
  stuff = 0xffff;
  sor = 0;
  rollbackmarker = 0;
  recordplace = answer;
  canonic = false;
}

abbrev started : PacketWriter
started = record asked {
  content = asked.content ++ (0xc0 ∷ 0x0c ∷ []);
  recordqname = root_name;
  recordqtype = 1;
  recordqclass = 1;
  recordttl = 60;
  stuff = 10;
  sor = 29;
  rollbackmarker = 17;
  recordplace = authority;
}

abbrev address : Bytes
address = 10 ∷ 0 ∷ 0 ∷ 1 ∷ []

abbrev with_data : PacketWriter
with_data = record started { pending = address }

start_run : start_record root_name 1 60 1 authority asked ≡ ok started
unfolding start_record begin_record start_name pdns_iequals to_lower dns_tolower commit
start_run = refl

constructor_run : new_writer asked root_name 1 1 0 ≡ ok asked
unfolding new_writer append_pending
constructor_run = refl

-- A pointer to itself: the eleven levels are used up.
cycle_run : get_label (0xc0 ∷ 0x0c ∷ []) 0 ≡ err moad
unfolding get_label get_label_from_content label_loop read_pointer at
cycle_run = refl

get_label_in_example : InPacket (0xc0 ∷ 0x0c ∷ []) 0 (get_label (0xc0 ∷ 0x0c ∷ []) 0)
get_label_in_example = get_label_in (0xc0 ∷ 0x0c ∷ []) 0 (omega arith)

get_label-xfr_label_example :
    (pw' : PacketWriter) × (xfr_label (name_text odd_labels) false started ≡ ok pw')
    × (pw'.pending ≡ started.pending ++ wire_name odd_labels)
    × (pw'.content ≡ started.content)
    × (get_label (address ++ (wire_name odd_labels ++ address)) (length address)
        ≡ ok (name_text odd_labels, length (address ++ wire_name odd_labels)))
unfolding wire_name label_seq
get_label-xfr_label_example =
    get_label-xfr_label odd_labels started address address odd_labels-AreLabels (omega arith)

-- "nl." at 0, and "a\.b." with a pointer to it at 4.
target_run :
    get_label_from_content 1
      ((2 ∷ b'n' ∷ b'l' ∷ 0 ∷ []) ++ (label_seq ((b'a' ∷ []) ∷ []) ++ (192 ∷ 12 ∷ [])))
      0
      (root_name ++ dotted ((b'a' ∷ []) ∷ []))
    ≡ ok (root_name ++ (b'a' ∷ b'.' ∷ b'n' ∷ b'l' ∷ b'.' ∷ []), 4)
unfolding get_label_from_content label_loop label_bytes at escaped label_seq dotted escape_label
target_run = refl

get_label_from_content-pointer_example :
    get_label_from_content 2
      ((2 ∷ b'n' ∷ b'l' ∷ 0 ∷ []) ++ (label_seq ((b'a' ∷ []) ∷ []) ++ (192 ∷ 12 ∷ [])))
      4
      root_name
    ≡ ok (
      root_name ++ (b'a' ∷ b'.' ∷ b'n' ∷ b'l' ∷ b'.' ∷ []),
      length ((2 ∷ b'n' ∷ b'l' ∷ 0 ∷ []) ++ label_seq ((b'a' ∷ []) ∷ [])) + 2,
    )
unfolding label_seq
get_label_from_content-pointer_example =
    get_label_from_content-pointer 1 ((b'a' ∷ []) ∷ []) 0 12 4 (2 ∷ b'n' ∷ b'l' ∷ 0 ∷ []) []
      root_name (root_name ++ (b'a' ∷ b'.' ∷ b'n' ∷ b'l' ∷ b'.' ∷ [])) (omega arith) (omega arith)
      (omega arith) (omega arith) (omega arith) target_run

commit_lem_example :
    (pw' : PacketWriter) × (commit with_data ≡ ok pw')
    × (pw'.pending ≡ [])
    × (drop 12 pw'.content
        ≡ drop 12 with_data.content ++ (record_header with_data ++ with_data.pending))
    × (section_count authority pw'.content
        ≡ counted with_data.recordplace authority (section_count authority with_data.content))
commit_lem_example = commit_lem with_data authority (omega arith) (omega arith)

-- The writer after a record with data, and a second record begun and rolled back: the first is written
-- and counted.
abbrev first_written : PacketWriter
first_written = record with_data {
  content =
      0 ∷ 0 ∷ 0 ∷ 0 ∷ 0 ∷ 1 ∷ 0 ∷ 0 ∷ 0 ∷ 1 ∷ 0 ∷ 0 ∷ 0 ∷ 0 ∷ 1 ∷ 0 ∷ 1 ∷ 0xc0 ∷ 0x0c ∷ 0 ∷ 1 ∷ 0
      ∷ 1 ∷ 0 ∷ 0 ∷ 0 ∷ 60 ∷ 0 ∷ 4 ∷ 10 ∷ 0 ∷ 0 ∷ 1 ∷ [];
  pending = [];
  stuff = 0;
}

written_run : written_out with_data ≡ ok first_written
unfolding commit record_header bump16 count_index
written_run = refl

abbrev second_started : PacketWriter
second_started = record (before_name root_name 28 30 1 additional first_written) {
  content = first_written.content ++ (0xc0 ∷ 0x0c ∷ []);
  stuff = 10;
  sor = 45;
}

second_run : start_record root_name 28 30 1 additional with_data ≡ ok second_started
unfolding start_record begin_record start_name pdns_iequals to_lower dns_tolower commit
    record_header bump16 count_index
second_run = refl

rollback-start_record_example :
    rollback (append_pending address second_started)
    ≡ record (before_name root_name 28 30 1 additional first_written) { labelmap = []; sor = 45 }
rollback-start_record_example =
    rollback-start_record root_name 28 30 1 additional with_data first_written second_started
      address written_run (omega arith) second_run

encode_dns_label-name_text_example : encode_dns_label (name_text odd_labels) ≡ wire_name odd_labels
encode_dns_label-name_text_example = encode_dns_label-name_text odd_labels odd_labels-AreLabels
