-- ===== src/Wire/Writer/Rollback.antt =====
-- `rollback` of pdns/pdns/dnswriter.cc after startRecord.
use powerdns_improved_lua.Prelude.{
  ℕ, ◌%◌, ◌^◌, ◌<◌, ◌≡◌, refl, sym, ap, ◌∙◌, inl, inr, Bool, true, false, [], ◌∷◌, ◌++◌, length,
  ◌==◌, if◌then◌else◌, arith, Bool-cases, take,
}
use mathlib.Core.Path.{ap₂}
use powerdns_improved_lua.Name.{Bytes, pdns_iequals}
use powerdns_improved_lua.Text.Relative.{take-append}
use powerdns_improved_lua.Wire.{Result, ok, ◌>>=◌, >>=-eq-ok}
use powerdns_improved_lua.Wire.Writer.{
  PacketWriter, Place, append_pending, xfr_label, commit, start_name, begin_record, start_record,
  rollback,
}

-- What `xfrLabel` can change of a writer.
xfr_label-changes :
    (label : Bytes) (compress : Bool) (pw pw' : PacketWriter)
    → xfr_label label compress pw ≡ ok pw'
    → pw' ≡ record pw { pending = pw'.pending; labelmap = pw'.labelmap }
unfolding xfr_label append_pending
xfr_label-changes label compress pw pw' e = ground arith

name_step :
    (name : Bytes) (pw pw' : PacketWriter)
    → pdns_iequals pw.qname name ≡ false
    → start_name name pw ≡ ok pw'
    → (xfr_label name true pw >>= λ w.
        ok (record w { content = w.content ++ w.pending; pending = [] }))
      ≡ ok pw'
unfolding start_name
name_step name pw pw' other e = ground arith

-- What the name of a record changes: bytes behind the content, and the label map.
start_name-changes :
    (name : Bytes) (pw pw' : PacketWriter)
    → pw.pending ≡ []
    → start_name name pw ≡ ok pw'
    → (bytes : Bytes) × (pw' ≡ record pw { content = pw.content ++ bytes; labelmap = pw'.labelmap })
start_name-changes name pw pw' empty e = elim (Bool-cases (pdns_iequals pw.qname name)) [
  | inl same ↦ (0xc0 ∷ 0x0c ∷ [], unfold start_name in ground arith)
  | inr other ↦
      let stored = name_step name pw pw' other e in
      let (w, written, rest) = >>=-eq-ok (xfr_label name true pw) _ stored in
      let changed = xfr_label-changes name true pw w written in (w.pending, ground arith)
]

-- The writer as the name of a new record meets it.
abbrev pub before_name : Bytes → ℕ → ℕ → ℕ → Place → PacketWriter → PacketWriter
before_name name qtype ttl qclass place pw = record pw {
  recordqname = name;
  recordqtype = qtype;
  recordqclass = qclass;
  recordttl = ttl;
  recordplace = place;
  stuff = 0;
  rollbackmarker = length pw.content % 2 ^ 16;
}

begin_record-changes :
    (name : Bytes) (qtype ttl qclass : ℕ) (place : Place) (pw pw' : PacketWriter)
    → pw.pending ≡ []
    → begin_record name qtype ttl qclass place pw ≡ ok pw'
    → (bytes : Bytes) × (pw' ≡ record (before_name name qtype ttl qclass place pw) {
      content = pw.content ++ bytes;
      labelmap = pw'.labelmap;
      stuff = 10;
      sor = pw'.sor;
    })
unfolding begin_record
begin_record-changes name qtype ttl qclass place pw pw' empty e =
    let before = before_name name qtype ttl qclass place pw in
    let (w, named, rest) = >>=-eq-ok (start_name name before) _ e in
    let (bytes, changed) = start_name-changes name before w empty named in (bytes, ground arith)

-- What a new record starts from: the writer, once a record that has data is written.
abbrev pub written_out : PacketWriter → Result PacketWriter
written_out pw = if length pw.pending == 0 then ok pw else commit pw

written_out-pending : (pw pw₀ : PacketWriter) → written_out pw ≡ ok pw₀ → pw₀.pending ≡ []
unfolding commit
written_out-pending pw pw₀ e =
    elim pw.pending as (λ p. pw.pending ≡ p → pw₀.pending ≡ []) [
      | [] ↦ λ h. ground arith
      | x ∷ xs ↦ λ h. ground arith
    ]
      refl

start_record-written_out :
    (name : Bytes) (qtype ttl qclass : ℕ) (place : Place) (pw pw₀ : PacketWriter)
    → written_out pw ≡ ok pw₀
    → start_record name qtype ttl qclass place pw ≡ begin_record name qtype ttl qclass place pw₀
unfolding start_record
start_record-written_out name qtype ttl qclass place pw pw₀ e =
    elim (Bool-cases (length pw.pending == 0)) [
      | inl none_there ↦ ground arith
      | inr some_there ↦ ground arith
    ]

-- `rollback` after `startRecord` of a record and any data appended to it. The writer is the one that
-- the record was started from, which is the one before `startRecord` with the record before it, if
-- that has data, written to the packet: the packet is the same, and nothing is pending. What is
-- not undone is named: the label map, the name, the type, the class, the time to live and the section
-- of the record, where it began and the marker; `stuff` is 0. The packet's length fits the
-- marker's uint16_t.
pub rollback-start_record :
    (name : Bytes) (qtype ttl qclass : ℕ) (place : Place) (pw pw₀ pw' : PacketWriter)
    (extra : Bytes)
    → written_out pw ≡ ok pw₀
    → length pw₀.content < 2 ^ 16
    → start_record name qtype ttl qclass place pw ≡ ok pw'
    → rollback (append_pending extra pw') ≡ record (before_name name qtype ttl qclass place pw₀) {
      labelmap = pw'.labelmap;
      sor = pw'.sor;
    }
rollback-start_record name qtype ttl qclass place pw pw₀ pw' extra first small e =
    let empty = written_out-pending pw pw₀ first in
    let begun = sym (start_record-written_out name qtype ttl qclass place pw pw₀ first) ∙ e in
    let (bytes, changed) = begin_record-changes name qtype ttl qclass place pw₀ pw' empty begun in
    let marker : pw'.rollbackmarker ≡ length pw₀.content % 2 ^ 16 =
      ap (λ w. w.rollbackmarker) changed in
    let exact : pw'.rollbackmarker ≡ length pw₀.content = omega arith in
    let content : pw'.content ≡ pw₀.content ++ bytes = ap (λ w. w.content) changed in
    let packet : take pw'.rollbackmarker pw'.content ≡ pw₀.content =
      ap₂ take exact content ∙ take-append pw₀.content bytes in
    unfold rollback append_pending in ground arith
