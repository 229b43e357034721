-- ===== src/Wire/Mangler.antt =====
-- `DNSPacketMangler` and `ageDNSPacket` of pdns/pdns/dnsparser.cc: the times to live in a packet of
-- the recursor's packet cache are lowered in place. A mangler is its packet and its offset.
pub mod Aging
pub mod Total
pub mod Steps
pub mod Records
pub mod Packet
use powerdns_improved_lua.Prelude.{
  ℕ, zero, suc, ◌+◌, ◌-◌, ◌*◌, ◌/◌, ◌%◌, ◌^◌, Bool, true, false, List, [], ◌∷◌, ◌++◌, length, leb,
  ltb, ◌==◌, if◌then◌else◌, take, drop, get_or,
}
use powerdns_improved_lua.Name.{Bytes}
use powerdns_improved_lua.Wire.{Result, ok, err, out_of_range, stuck, ◌>>=◌}
use powerdns_improved_lua.Wire.Numbers.{bytes32}

-- `moveOffset`, whose argument is a uint16_t; a range_error is `out_of_range`.
unfoldable pub move_offset : Bytes → ℕ → ℕ → Result ℕ
move_offset packet by offset =
    let moved = (offset + by % 2 ^ 16) % 2 ^ 32 in
    if ltb (length packet) moved then err out_of_range else ok moved

-- `get8BitInt`: the byte and the offset behind it.
unfoldable pub get8 : Bytes → ℕ → Result (ℕ × ℕ)
get8 packet offset = do offset' ← move_offset packet 1 offset; ok (get_or packet offset 0, offset')

unfoldable pub get16 : Bytes → ℕ → Result (ℕ × ℕ)
get16 packet offset = do
  offset' ← move_offset packet 2 offset
  ok (get_or packet offset 0 * 256 + get_or packet (offset + 1) 0, offset')

-- The loop of `skipLabel`.
unfoldable pub skip_label_loop : ℕ → Bytes → ℕ → Result ℕ
skip_label_loop zero packet offset = err stuck
skip_label_loop (suc fuel) packet offset = do
  (len, offset') ← get8 packet offset
  let pointer = get8 packet offset' >>= λ (_, behind). ok behind
  let label = move_offset packet len offset' >>= λ behind. skip_label_loop fuel packet behind
  if len == 0 then ok offset' else if leb 0xc0 len then pointer else label

unfoldable pub skip_label : Bytes → ℕ → Result ℕ
skip_label packet offset = skip_label_loop (suc (length packet)) packet offset

unfoldable pub skip_rdata : Bytes → ℕ → Result ℕ
skip_rdata packet offset = do
  (toskip, offset') ← get16 packet offset
  move_offset packet toskip offset'

unfoldable pub read32 : Bytes → ℕ → ℕ
read32 packet offset =
    get_or packet offset 0 * 2 ^ 24
    + get_or packet (offset + 1) 0 * 2 ^ 16
    + get_or packet (offset + 2) 0 * 256
    + get_or packet (offset + 3) 0

-- `decreaseAndSkip32BitInt`: the difference wraps.
unfoldable pub decrease_and_skip : ℕ → Bytes → ℕ → Result (Bytes × ℕ)
decrease_and_skip decrease packet offset = do
  offset' ← move_offset packet 4 offset
  let lower = (read32 packet offset + 2 ^ 32 - decrease % 2 ^ 32) % 2 ^ 32
  ok (take (offset' - 4) packet ++ (bytes32 lower ++ drop offset' packet), offset')

-- The loop over the questions.
unfoldable pub skip_questions : ℕ → Bytes → ℕ → Result ℕ
skip_questions zero packet offset = ok offset
skip_questions (suc n) packet offset = do
  named ← skip_label packet offset
  behind ← move_offset packet 4 named
  skip_questions n packet behind

-- A record up to its time to live: its type, and the offset.
unfoldable pub record_start : Bytes → ℕ → Result (ℕ × ℕ)
record_start packet offset = do
  named ← skip_label packet offset
  (dnstype, typed) ← get16 packet named
  (dnsclass, classed) ← get16 packet typed
  ok (dnstype, classed)

-- The loop over the records. An exception ends it and leaves what was changed before; 41 is OPT.
unfoldable pub age_records : ℕ → ℕ → Bytes → ℕ → Bytes
age_records seconds zero packet offset = packet
age_records seconds (suc n) packet offset = elim (record_start packet offset) [
  | err e ↦ packet
  | ok (dnstype, at_ttl) ↦
      let aged : Bytes = elim (decrease_and_skip seconds packet at_ttl) [
        | err e ↦ packet
        | ok (packet', at_rdata) ↦ elim (skip_rdata packet' at_rdata) [
          | err e ↦ packet'
          | ok behind ↦ age_records seconds n packet' behind
        ]
      ] in
      if dnstype == 41 then packet else aged
]

-- A counter of the header.
unfoldable pub header_count : Bytes → ℕ → ℕ
header_count packet i = get_or packet i 0 * 256 + get_or packet (i + 1) 0

unfoldable pub age_dns_packet : ℕ → Bytes → Bytes
age_dns_packet seconds packet =
    let numrecords = header_count packet 6 + header_count packet 8 + header_count packet 10 in
    let aged : Bytes = elim (skip_questions (header_count packet 4) packet 12) [
      | err e ↦ packet
      | ok offset ↦ age_records seconds numrecords packet offset
    ] in
    if ltb (length packet) 12 then packet else aged
