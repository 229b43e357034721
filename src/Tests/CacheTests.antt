-- ===== src/Tests/CacheTests.antt =====
-- Pruning a cache and ageing a packet: runs and instances.
use powerdns_improved_lua.Prelude.{
  ℕ, ◌+◌, ◌^◌, ◌≤◌, ◌<◌, ◌≡◌, refl, inr, List, [], ◌∷◌, ◌++◌, arith, length,
}
use powerdns_improved_lua.Name.{Bytes}
use powerdns_improved_lua.Cleaner.{prune_collection, scan, excess}
use powerdns_improved_lua.Cleaner.Prune.{live, length-prune_collection, live-prune_collection}
use powerdns_improved_lua.Wire.Reader.Labels.{label_seq}
use powerdns_improved_lua.Wire.Writer.Names.{wire_name}
use powerdns_improved_lua.Wire.Numbers.{bytes16, bytes32}
use powerdns_improved_lua.Wire.Mangler.{header_count, age_dns_packet}
use powerdns_improved_lua.Wire.Mangler.Aging.{Alike, age_dns_packet-Alike}
use powerdns_improved_lua.Wire.Mangler.Records.{
  WireRecord, records_bytes, record_bytes, before_ttl, behind_ttl, all_aged,
}
use powerdns_improved_lua.Wire.Mangler.Packet.{
  WireQuestion, questions_bytes, age_dns_packet-all_aged,
}

-- Entries are their times here.
itself : ℕ → ℕ
itself n = n

abbrev times : List ℕ
times = 50 ∷ 200 ∷ 60 ∷ 300 ∷ 400 ∷ []

prune_run : prune_collection itself 100 2 1000 times ≡ 300 ∷ 400 ∷ []
unfolding prune_collection scan excess itself
prune_run = refl

length-prune_collection_example : length (prune_collection itself 100 2 1000 times) ≤ 2
length-prune_collection_example =
    length-prune_collection itself 100 2 1000 times (omega arith) (omega arith)

live-prune_collection_example :
    live itself 100 (prune_collection itself 100 8 2 times) ≡ live itself 100 times
live-prune_collection_example = live-prune_collection itself 100 8 2 times (inr (omega arith))

abbrev header : Bytes
header = 0 ∷ 0 ∷ 0 ∷ 0 ∷ 0 ∷ 1 ∷ 0 ∷ 1 ∷ 0 ∷ 0 ∷ 0 ∷ 0 ∷ []

abbrev questions : List WireQuestion
questions = record { labels = (b'n' ∷ b'l' ∷ []) ∷ []; type = 1; class = 1 } ∷ []

abbrev address_record : WireRecord
address_record = record {
  labels = (b'n' ∷ b'l' ∷ []) ∷ [];
  type = 1;
  class = 1;
  ttl = 3600;
  rdata = 10 ∷ 0 ∷ 0 ∷ 1 ∷ [];
}

abbrev records : List WireRecord
records = address_record ∷ []

header_run : header_count header 4 ≡ 1
unfolding header_count
header_run = refl

records_run : header_count header 6 + header_count header 8 + header_count header 10 ≡ 1
unfolding header_count
records_run = refl

small_run : length (header ++ (questions_bytes questions ++ (records_bytes records ++ []))) < 2 ^ 31
unfolding questions_bytes records_bytes record_bytes before_ttl behind_ttl wire_name label_seq
    bytes16 bytes32
small_run = omega arith

age_dns_packet-all_aged_example :
    age_dns_packet 60 (header ++ (questions_bytes questions ++ (records_bytes records ++ [])))
    ≡ header ++ (questions_bytes questions ++ (records_bytes (all_aged 60 records) ++ []))
age_dns_packet-all_aged_example =
    age_dns_packet-all_aged 60 header [] questions records refl small_run header_run records_run
      (omega arith) (omega arith)

age_dns_packet-Alike_example : Alike header (age_dns_packet 60 header)
age_dns_packet-Alike_example = age_dns_packet-Alike 60 header (omega arith)
