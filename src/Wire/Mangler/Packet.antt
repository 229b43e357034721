-- ===== src/Wire/Mangler/Packet.antt =====
-- What ageing does to a whole packet: pdns/pdns/dnsparser.cc.
use powerdns_improved_lua.Prelude.{
  ℕ, suc, ◌+◌, ◌^◌, ◌<◌, ◌≡◌, refl, sym, ap, ◌∙◌, false, List, [], ◌∷◌, ◌++◌, length, length-append,
  ltb, arith, append_assoc,
}
use powerdns_improved_lua.Name.{Bytes}
use powerdns_improved_lua.Wire.{ok}
use powerdns_improved_lua.Wire.Numbers.{bytes16}
use powerdns_improved_lua.Wire.Reader.Labels.{AreLabels}
use powerdns_improved_lua.Wire.Writer.Names.{wire_name}
use powerdns_improved_lua.Wire.Mangler.{
  move_offset, skip_label, skip_questions, header_count, age_dns_packet,
}
use powerdns_improved_lua.Wire.Writer.Records.{get_or-append}
use powerdns_improved_lua.Wire.Mangler.Steps.{move_offset-to, skip_label-at}
use powerdns_improved_lua.Wire.Mangler.Records.{
  WireRecord, AreRecords, records_bytes, all_aged, age_records-all_aged,
}

-- A question on the wire: its name, and the two bytes each of its type and class.
pub record WireQuestion : Type 0 where
  pub labels : List Bytes
  pub type : ℕ
  pub class : ℕ

abbrev pub AreQuestions : List WireQuestion → Type 0
AreQuestions [] = Unit
AreQuestions (q ∷ qs) = AreLabels q.labels × AreQuestions qs

unfoldable pub questions_bytes : List WireQuestion → Bytes
questions_bytes [] = []
questions_bytes (q ∷ qs) =
    wire_name q.labels ++ ((bytes16 q.type ++ bytes16 q.class) ++ questions_bytes qs)

length-types : (q : WireQuestion) → length (bytes16 q.type ++ bytes16 q.class) ≡ 4
unfolding bytes16
length-types q = refl

length-questions_cons :
    (q : WireQuestion) (qs : List WireQuestion)
    → length (questions_bytes (q ∷ qs))
      ≡ length (wire_name q.labels) + 4 + length (questions_bytes qs)
unfolding questions_bytes
length-questions_cons q qs = omega (
  arith,
  length-append (wire_name q.labels) ((bytes16 q.type ++ bytes16 q.class) ++ questions_bytes qs),
  length-append (bytes16 q.type ++ bytes16 q.class) (questions_bytes qs),
  length-types q,
)

skip_questions-suc :
    (n : ℕ) (packet : Bytes) (o named behind : ℕ)
    → skip_label packet o ≡ ok named
    → move_offset packet 4 named ≡ ok behind
    → skip_questions (suc n) packet o ≡ skip_questions n packet behind
unfolding skip_questions
skip_questions-suc n packet o named behind h k = rw (h, k) refl

skip_questions-at :
    (qs : List WireQuestion) (o : ℕ) (packet pre rest : Bytes)
    → packet ≡ pre ++ (questions_bytes qs ++ rest)
    → length packet < 2 ^ 31
    → AreQuestions qs
    → o ≡ length pre
    → skip_questions (length qs) packet o ≡ ok (o + length (questions_bytes qs))
skip_questions-at [] o packet pre rest e small w h =
    let z : o ≡ o + 0 = omega arith in
    unfold skip_questions questions_bytes in ap (λ (k : ℕ). ok k) z
skip_questions-at (q ∷ qs) o packet pre rest e small (w, ws) h =
    let name = wire_name q.labels in
    let types = bytes16 q.type ++ bytes16 q.class in
    let later = questions_bytes qs ++ rest in
    let split : packet ≡ pre ++ (name ++ (types ++ later)) =
      e
      ∙ ap (◌++◌ pre) (
          unfold questions_bytes in
          (append_assoc name (types ++ questions_bytes qs) rest
            ∙ ap (◌++◌ name) (append_assoc types (questions_bytes qs) rest))) in
    let behind : packet ≡ ((pre ++ name) ++ types) ++ later =
      split
      ∙ sym (append_assoc pre name (types ++ later))
      ∙ sym (append_assoc (pre ++ name) types later) in
    let four = length-types q in
    let a = length-append pre name in
    let b = length-append (pre ++ name) types in
    let size = ap length behind ∙ length-append ((pre ++ name) ++ types) later in
    let skipped = skip_label-at q.labels o packet pre (types ++ later) split small w h in
    let moved = move_offset-to packet 4 (o + length name) small (omega arith) (omega arith) in
    let next =
      skip_questions-at qs (o + length name + 4) packet ((pre ++ name) ++ types) rest behind small
        ws (omega arith) in
    let total : o + length name + 4 + length (questions_bytes qs)
        ≡ o + length (questions_bytes (q ∷ qs)) =
      omega (arith, length-questions_cons q qs) in
    skip_questions-suc (length qs) packet o (o + length name) (o + length name + 4) skipped moved
    ∙ next
    ∙ ap (λ (k : ℕ). ok k) total

header_count-append :
    (header rest : Bytes) (i : ℕ)
    → length header ≡ 12
    → i + 1 < 12
    → header_count (header ++ rest) i ≡ header_count header i
unfolding header_count
header_count-append header rest i h k =
    rw (get_or-append header rest i (omega arith), get_or-append header rest (i + 1) (omega arith))
      refl

-- Ageing a packet lowers the time to live of each of its records, modulo 2 ^ 32, and changes nothing
-- else. The packet has a header of twelve bytes that counts the questions and the records, the
-- questions, the records, none of them OPT, with names of labels of 1 to 191 bytes and without
-- compression, and whatever may follow.
pub age_dns_packet-all_aged :
    (seconds : ℕ) (header rest : Bytes) (qs : List WireQuestion) (rs : List WireRecord)
    → length header ≡ 12
    → length (header ++ (questions_bytes qs ++ (records_bytes rs ++ rest))) < 2 ^ 31
    → header_count header 4 ≡ length qs
    → header_count header 6 + header_count header 8 + header_count header 10 ≡ length rs
    → AreQuestions qs
    → AreRecords rs
    → age_dns_packet seconds (header ++ (questions_bytes qs ++ (records_bytes rs ++ rest)))
      ≡ header ++ (questions_bytes qs ++ (records_bytes (all_aged seconds rs) ++ rest))
age_dns_packet-all_aged seconds header rest qs rs h small nq nr wq wr =
    let questions = questions_bytes qs in
    let later = records_bytes rs ++ rest in
    let packet = header ++ (questions ++ later) in
    let c4 = header_count-append header (questions ++ later) 4 h (omega arith) in
    let c6 = header_count-append header (questions ++ later) 6 h (omega arith) in
    let c8 = header_count-append header (questions ++ later) 8 h (omega arith) in
    let c10 = header_count-append header (questions ++ later) 10 h (omega arith) in
    let long : ltb (length packet) 12 ≡ false =
      ground (arith, length-append header (questions ++ later)) in
    let skipped = skip_questions-at qs 12 packet header later refl small wq (sym h) in
    let split : packet ≡ (header ++ questions) ++ later =
      sym (append_assoc header questions later) in
    let records =
      age_records-all_aged seconds (12 + length questions) rs packet (header ++ questions) rest
        split small wr (omega (arith, length-append header questions)) in
    let result : age_dns_packet seconds packet
        ≡ (header ++ questions) ++ (records_bytes (all_aged seconds rs) ++ rest) =
      unfold age_dns_packet in rw (long, c4, nq, skipped, c6, c8, c10, nr) records in
    result ∙ append_assoc header questions (records_bytes (all_aged seconds rs) ++ rest)
