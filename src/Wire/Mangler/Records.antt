-- ===== src/Wire/Mangler/Records.antt =====
-- What ageing does to a packet of well-formed records: pdns/pdns/dnsparser.cc.
use powerdns_improved_lua.Prelude.{
  ℕ, suc, ◌+◌, ◌^◌, ◌<◌, ◌≡◌, ◌≢◌, refl, sym, ap, ◌∙◌, false, List, [], ◌∷◌, ◌++◌, length,
  length-append, ◌==◌, arith, append_assoc,
}
use powerdns_improved_lua.Name.{Bytes}
use powerdns_improved_lua.Wire.{ok}
use powerdns_improved_lua.Wire.Numbers.{bytes16, bytes32}
use powerdns_improved_lua.Wire.Reader.Labels.{AreLabels}
use powerdns_improved_lua.Wire.Writer.Names.{wire_name}
use powerdns_improved_lua.Wire.Mangler.{skip_rdata, record_start, age_records}
use powerdns_improved_lua.Wire.Mangler.Steps.{
  move_offset-to, get16-at, lowered, decrease_and_skip-at, skip_label-at, length-bytes32,
  length-ttl,
}

-- A record on the wire, with its name uncompressed.
pub record WireRecord : Type 0 where
  pub labels : List Bytes
  pub type : ℕ
  pub class : ℕ
  pub ttl : ℕ
  pub rdata : Bytes

-- The record has the widths of the wire, and is no OPT record.
abbrev pub IsRecord : WireRecord → Type 0
IsRecord r =
    AreLabels r.labels
    × (r.type < 2 ^ 16)
    × (r.type ≢ 41)
    × (r.class < 2 ^ 16)
    × (r.ttl < 2 ^ 32)
    × (length r.rdata < 2 ^ 16)

abbrev pub AreRecords : List WireRecord → Type 0
AreRecords [] = Unit
AreRecords (r ∷ rs) = IsRecord r × AreRecords rs

-- What stands before the time to live, and behind it.
unfoldable pub before_ttl : WireRecord → Bytes
before_ttl r = wire_name r.labels ++ (bytes16 r.type ++ bytes16 r.class)

unfoldable pub behind_ttl : WireRecord → Bytes
behind_ttl r = bytes16 (length r.rdata) ++ r.rdata

unfoldable pub record_bytes : WireRecord → Bytes
unfolding before_ttl behind_ttl
record_bytes r = before_ttl r ++ (bytes32 r.ttl ++ behind_ttl r)

unfoldable pub records_bytes : List WireRecord → Bytes
records_bytes [] = []
records_bytes (r ∷ rs) = record_bytes r ++ records_bytes rs

-- A record whose time to live is lower, and records.
abbrev pub aged : ℕ → WireRecord → WireRecord
aged seconds r = record r { ttl = lowered seconds r.ttl }

abbrev pub all_aged : ℕ → List WireRecord → List WireRecord
all_aged seconds [] = []
all_aged seconds (r ∷ rs) = aged seconds r ∷ all_aged seconds rs

length-bytes16 : (v : ℕ) → length (bytes16 v) ≡ 2
unfolding bytes16
length-bytes16 v = refl

length-before_ttl : (r : WireRecord) → length (before_ttl r) ≡ length (wire_name r.labels) + 4
unfolding before_ttl
length-before_ttl r = omega (
  arith,
  length-append (wire_name r.labels) (bytes16 r.type ++ bytes16 r.class),
  length-append (bytes16 r.type) (bytes16 r.class),
  length-bytes16 r.type,
  length-bytes16 r.class,
)

length-behind_ttl : (r : WireRecord) → length (behind_ttl r) ≡ 2 + length r.rdata
unfolding behind_ttl
length-behind_ttl r =
    omega (arith, length-append (bytes16 (length r.rdata)) r.rdata, length-bytes16 (length r.rdata))

record_start-at :
    (r : WireRecord) (o : ℕ) (packet pre rest : Bytes)
    → packet ≡ pre ++ (before_ttl r ++ rest)
    → length packet < 2 ^ 31
    → IsRecord r
    → o ≡ length pre
    → record_start packet o ≡ ok (r.type, o + length (before_ttl r))
record_start-at r o packet pre rest e small (w, ty, _, cl, _, _) h =
    let name = wire_name r.labels in
    let split : packet ≡ pre ++ (name ++ (bytes16 r.type ++ (bytes16 r.class ++ rest))) =
      e
      ∙ ap (◌++◌ pre) (
          unfold before_ttl in
          (append_assoc name (bytes16 r.type ++ bytes16 r.class) rest
            ∙ ap (◌++◌ name) (append_assoc (bytes16 r.type) (bytes16 r.class) rest))) in
    let typed : packet ≡ (pre ++ name) ++ (bytes16 r.type ++ (bytes16 r.class ++ rest)) =
      split ∙ sym (append_assoc pre name (bytes16 r.type ++ (bytes16 r.class ++ rest))) in
    let classed : packet ≡ ((pre ++ name) ++ bytes16 r.type) ++ (bytes16 r.class ++ rest) =
      typed ∙ sym (append_assoc (pre ++ name) (bytes16 r.type) (bytes16 r.class ++ rest)) in
    let a = length-append pre name in
    let b = length-append (pre ++ name) (bytes16 r.type) in
    let skipped =
      skip_label-at r.labels o packet pre (bytes16 r.type ++ (bytes16 r.class ++ rest)) split small
        w h in
    let first =
      get16-at packet (pre ++ name) (bytes16 r.class ++ rest) r.type (o + length name) typed small
        ty (omega arith) in
    let second =
      get16-at packet ((pre ++ name) ++ bytes16 r.type) rest r.class (o + length name + 2) classed
        small cl (omega (arith, length-bytes16 r.type)) in
    let total : o + length name + 2 + 2 ≡ o + length (before_ttl r) =
      omega (arith, length-before_ttl r) in
    unfold record_start in rw (skipped, first, second, total) refl

skip_rdata-at :
    (r : WireRecord) (o : ℕ) (packet pre rest : Bytes)
    → packet ≡ pre ++ (behind_ttl r ++ rest)
    → length packet < 2 ^ 31
    → IsRecord r
    → o ≡ length pre
    → skip_rdata packet o ≡ ok (o + length (behind_ttl r))
skip_rdata-at r o packet pre rest e small (_, _, _, _, _, len) h =
    let n = length r.rdata in
    let split : packet ≡ pre ++ (bytes16 n ++ (r.rdata ++ rest)) =
      e ∙ ap (◌++◌ pre) (unfold behind_ttl in append_assoc (bytes16 n) r.rdata rest) in
    let sized = get16-at packet pre (r.rdata ++ rest) n o split small len h in
    let a = length-bytes16 n in
    let size = ap length split ∙ length-append pre (bytes16 n ++ (r.rdata ++ rest)) in
    let size' = length-append (bytes16 n) (r.rdata ++ rest) in
    let moved =
      move_offset-to packet n (o + 2) small len (omega (arith, length-append r.rdata rest)) in
    let total : o + 2 + n ≡ o + length (behind_ttl r) = omega (arith, length-behind_ttl r) in
    unfold skip_rdata in rw (sized, moved, total) refl

-- One record, at any place of the packet.
record_split :
    (r : WireRecord) (pre rest : Bytes)
    → pre ++ (record_bytes r ++ rest)
      ≡ (pre ++ before_ttl r) ++ (bytes32 r.ttl ++ (behind_ttl r ++ rest))
unfolding record_bytes
record_split r pre rest =
    ap (◌++◌ pre) (
      append_assoc (before_ttl r) (bytes32 r.ttl ++ behind_ttl r) rest
      ∙ ap (◌++◌ (before_ttl r)) (append_assoc (bytes32 r.ttl) (behind_ttl r) rest))
    ∙ sym (append_assoc pre (before_ttl r) (bytes32 r.ttl ++ (behind_ttl r ++ rest)))

length-record_bytes :
    (r : WireRecord) → length (record_bytes r) ≡ length (before_ttl r) + 4 + length (behind_ttl r)
unfolding record_bytes
length-record_bytes r = omega (
  arith,
  length-append (before_ttl r) (bytes32 r.ttl ++ behind_ttl r),
  length-bytes32 r.ttl (behind_ttl r),
)

same_before : (seconds : ℕ) (r : WireRecord) → before_ttl (aged seconds r) ≡ before_ttl r
unfolding before_ttl
same_before seconds r = refl

same_behind : (seconds : ℕ) (r : WireRecord) → behind_ttl (aged seconds r) ≡ behind_ttl r
unfolding behind_ttl
same_behind seconds r = refl

aged_split :
    (seconds : ℕ) (r : WireRecord) (pre rest : Bytes)
    → (pre ++ before_ttl r) ++ (bytes32 (lowered seconds r.ttl) ++ (behind_ttl r ++ rest))
      ≡ (pre ++ record_bytes (aged seconds r)) ++ rest
aged_split seconds r pre rest =
    let regroup : (pre ++ record_bytes (aged seconds r)) ++ rest
        ≡ (pre ++ before_ttl (aged seconds r))
          ++ (bytes32 (lowered seconds r.ttl) ++ (behind_ttl (aged seconds r) ++ rest)) =
      append_assoc pre (record_bytes (aged seconds r)) rest
      ∙ record_split (aged seconds r) pre rest in
    sym (rw (same_before seconds r, same_behind seconds r) at regroup)

age_records-step :
    (seconds n o : ℕ) (r : WireRecord) (packet pre rest : Bytes)
    → packet ≡ pre ++ (record_bytes r ++ rest)
    → length packet < 2 ^ 31
    → IsRecord r
    → o ≡ length pre
    → age_records seconds (suc n) packet o
      ≡ age_records seconds n
          ((pre ++ record_bytes (aged seconds r)) ++ rest)
          (o + length (record_bytes r))
age_records-step seconds n o r packet pre rest e small w h =
    let split = e ∙ record_split r pre rest in
    let tail = bytes32 r.ttl ++ (behind_ttl r ++ rest) in
    let head = before_ttl r in
    let whole : packet ≡ pre ++ (head ++ tail) = split ∙ append_assoc pre head tail in
    let started = record_start-at r o packet pre tail whole small w h in
    let at_ttl = o + length head in
    let place : at_ttl ≡ length (pre ++ head) = omega (arith, length-append pre head) in
    let lower =
      decrease_and_skip-at seconds r.ttl at_ttl packet (pre ++ head) (behind_ttl r ++ rest) split
        small w.4 place in
    let aged_ttl = bytes32 (lowered seconds r.ttl) in
    let packet' : Bytes = (pre ++ head) ++ (aged_ttl ++ (behind_ttl r ++ rest)) in
    let regroup : packet' ≡ ((pre ++ head) ++ aged_ttl) ++ (behind_ttl r ++ rest) =
      sym (append_assoc (pre ++ head) aged_ttl (behind_ttl r ++ rest)) in
    let small' : length packet' < 2 ^ 31 = omega (
      arith,
      ap length split,
      length-append (pre ++ head) tail,
      length-append (pre ++ head) (aged_ttl ++ (behind_ttl r ++ rest)),
      length-bytes32 r.ttl (behind_ttl r ++ rest),
      length-bytes32 (lowered seconds r.ttl) (behind_ttl r ++ rest),
    ) in
    let skipped =
      skip_rdata-at r (at_ttl + 4) packet' ((pre ++ head) ++ aged_ttl) rest regroup small' w (
        omega (
          arith,
          length-append (pre ++ head) aged_ttl,
          length-append pre head,
          length-ttl (lowered seconds r.ttl),
        )) in
    let no_opt = w.2 in
    let other : (r.type == 41) ≡ false = ground arith in
    let step : age_records seconds (suc n) packet o
        ≡ age_records seconds n packet' (at_ttl + 4 + length (behind_ttl r)) =
      unfold age_records in ground arith in
    let total : at_ttl + 4 + length (behind_ttl r) ≡ o + length (record_bytes r) =
      omega (arith, length-record_bytes r) in
    step ∙ rw (total, aged_split seconds r pre rest) refl

pub length-aged :
    (seconds : ℕ) (r : WireRecord)
    → length (record_bytes (aged seconds r)) ≡ length (record_bytes r)
length-aged seconds r = omega (
  arith,
  length-record_bytes r,
  length-record_bytes (aged seconds r),
  ap length (same_before seconds r),
  ap length (same_behind seconds r),
)

-- The loop over well-formed records.
pub age_records-all_aged :
    (seconds o : ℕ) (rs : List WireRecord) (packet pre rest : Bytes)
    → packet ≡ pre ++ (records_bytes rs ++ rest)
    → length packet < 2 ^ 31
    → AreRecords rs
    → o ≡ length pre
    → age_records seconds (length rs) packet o
      ≡ pre ++ (records_bytes (all_aged seconds rs) ++ rest)
age_records-all_aged seconds o [] packet pre rest e small w h =
    unfold age_records records_bytes in e
age_records-all_aged seconds o (r ∷ rs) packet pre rest e small (w, ws) h =
    let later = records_bytes rs ++ rest in
    let a = record_bytes (aged seconds r) in
    let split : packet ≡ pre ++ (record_bytes r ++ later) =
      e
      ∙ ap (◌++◌ pre)
          (unfold records_bytes in append_assoc (record_bytes r) (records_bytes rs) rest) in
    let step = age_records-step seconds (length rs) o r packet pre later split small w h in
    let same : length a ≡ length (record_bytes r) = length-aged seconds r in
    let small' : length ((pre ++ a) ++ later) < 2 ^ 31 = omega (
      arith,
      ap length split,
      length-append pre (record_bytes r ++ later),
      length-append (record_bytes r) later,
      length-append (pre ++ a) later,
      length-append pre a,
    ) in
    let behind : o + length (record_bytes r) ≡ length (pre ++ a) =
      omega (arith, length-append pre a) in
    step
    ∙ age_records-all_aged seconds (o + length (record_bytes r)) rs ((pre ++ a) ++ later) (pre ++ a)
        rest refl small' ws behind
    ∙ append_assoc pre a (records_bytes (all_aged seconds rs) ++ rest)
    ∙ ap (◌++◌ pre)
        (unfold records_bytes in sym (append_assoc a (records_bytes (all_aged seconds rs)) rest))
