-- ===== src/Nsec.antt =====
-- NSEC, NSEC3 and NSEC3PARAM records in pdns/pdns/nsecrecords.cc: from the record to the packet and
-- back. A set of types is its elements in ascending order.
pub mod Bits
pub mod Reading
pub mod RoundTrip
pub mod Parts
pub mod Packet
use Prim.Native.Nat.{bit_or}
use powerdns_improved_lua.Prelude.{
  ℕ, zero, suc, ◌+◌, ◌-◌, ◌*◌, ◌/◌, ◌%◌, ◌^◌, Bool, true, false, not, ◌&&◌, ◌||◌, List, [], ◌∷◌,
  ◌++◌, length, leb, ltb, ◌==◌, if◌then◌else◌, Option, none, some, take, drop, set, get_or,
  replicate,
}
use powerdns_improved_lua.Name.{Bytes}
use powerdns_improved_lua.Wire.{Result, ok, err, moad, ◌>>=◌, at}
use powerdns_improved_lua.Wire.Reader.{
  PacketReader, get_label_of, get_16bit_of, get_8bit_int, xfr_blob,
}
use powerdns_improved_lua.Wire.Writer.{PacketWriter, xfr_label}
use powerdns_improved_lua.Wire.Writer as Writer

-- `res[2+*i/8] |= 1 << (7-(*i%8))`.
unfoldable pub set_bit : ℕ → Bytes → Bytes
set_bit t res = set res (2 + t / 8) (bit_or (get_or res (2 + t / 8) 0) (2 ^ (7 - t % 8)))

-- The loop over the types below 255, and the last of them.
unfoldable pub mark : List ℕ → Bytes → Bytes
mark [] res = res
mark (t ∷ types) res = let rest = mark types (set_bit t res) in if ltb t 255 then rest else res

unfoldable pub last_marked : List ℕ → Option ℕ → Option ℕ
last_marked [] last = last
last_marked (t ∷ types) last =
    let rest = last_marked types (some t) in if ltb t 255 then rest else last

-- The window block. `none` is the decrement of the first iterator.
unfoldable pub nsec_bitmap : List ℕ → Option Bytes
nsec_bitmap [] = some (0 ∷ 0 ∷ [])
nsec_bitmap (t ∷ types) =
    let res = mark (t ∷ types) (replicate 34 0) in
    elim (last_marked (t ∷ types) none) [
      | none ↦ none
      | some last ↦ let len = 1 + last / 8 in some (take (len + 2) (set res 1 len))
    ]

-- An insertion into the set.
unfoldable pub insert : ℕ → List ℕ → List ℕ
insert t [] = t ∷ []
insert t (u ∷ types) =
    let rest = insert t types in
    if t == u then u ∷ types else if ltb t u then t ∷ u ∷ types else u ∷ rest

-- The loop over the bits of one byte, with the bits left.
unfoldable pub read_bits : ℕ → ℕ → ℕ → ℕ → List ℕ → List ℕ
read_bits zero n bit val types = types
read_bits (suc left) n bit val types =
    read_bits left n (bit + 1) (val / 2)
      (if val % 2 == 1 then insert (7 - bit + 8 * n) types else types)

unfoldable pub read_bytes : ℕ → Bytes → List ℕ → List ℕ
read_bytes n [] types = types
read_bytes n (val ∷ bytes) types = read_bytes (n + 1) bytes (read_bits 8 n 0 val types)

-- The reading of a block that is not empty. The length is a char that becomes an unsigned int.
unfoldable pub read_bitmap : Bytes → Result (List ℕ)
read_bitmap bitmap =
    let first = get_or bitmap 1 0 in
    let len = if ltb first 128 then first else first + 2 ^ 32 - 256 in
    if ltb (length bitmap) 2
    then err moad
    else if not (get_or bitmap 0 0 == 0)
    then err moad
    else if not (length bitmap == (2 + len) % 2 ^ 32)
    then err moad
    else ok (read_bytes 0 (drop 2 bitmap) [])

pub record NsecRecord : Type 0 where
  pub next : Bytes
  pub types : List ℕ

-- `NSECRecordContent::toPacket`; `none` as above.
unfoldable pub nsec_to_packet : NsecRecord → PacketWriter → Option (Result PacketWriter)
nsec_to_packet r pw = elim (nsec_bitmap r.types) [
  | none ↦ none
  | some bitmap ↦ some (xfr_label r.next false pw >>= λ pw'. ok (Writer.xfr_blob bitmap pw'))
]

unfoldable pub nsec_make : PacketReader → Result (NsecRecord × PacketReader)
nsec_make pr = do
  (next, pr') ← get_label_of pr
  (bitmap, pr'') ← xfr_blob pr'
  types ← read_bitmap bitmap
  ok (record { next = next; types = types }, pr'')

-- `xfr8BitInt` and `xfrBlob(blob, length)` of the reader.
unfoldable pub get_8bit_of : PacketReader → Result (ℕ × PacketReader)
get_8bit_of pr = do (v, pos') ← get_8bit_int pr.content pr.pos; ok (v, record pr { pos = pos' })

unfoldable pub xfr_blob_length : ℕ → PacketReader → Result (Bytes × PacketReader)
xfr_blob_length n pr = do
  let blob = at pr.content pr.pos >>= λ _. at pr.content (pr.pos + n - 1) >>= λ _.
      ok (take n (drop pr.pos pr.content), record pr { pos = (pr.pos + n) % 2 ^ 16 })
  if n == 0 then ok ([], pr) else blob

pub record Nsec3Record : Type 0 where
  pub algorithm : ℕ
  pub flags : ℕ
  pub iterations : ℕ
  pub salt : Bytes
  pub nexthash : Bytes
  pub types : List ℕ

unfoldable pub nsec3_to_packet : Nsec3Record → PacketWriter → Option PacketWriter
nsec3_to_packet r pw = elim (nsec_bitmap r.types) [
  | none ↦ none
  | some bitmap ↦ some (
      Writer.xfr_blob bitmap (
        Writer.xfr_blob r.nexthash (
          Writer.xfr_8bit_int (length r.nexthash) (
            Writer.xfr_blob r.salt (
              Writer.xfr_8bit_int (length r.salt) (
                Writer.xfr_16bit_int r.iterations
                  (Writer.xfr_8bit_int r.flags (Writer.xfr_8bit_int r.algorithm pw))))))))
]

unfoldable pub nsec3_make : PacketReader → Result (Nsec3Record × PacketReader)
nsec3_make pr = do
  (algorithm, pr₁) ← get_8bit_of pr
  (flags, pr₂) ← get_8bit_of pr₁
  (iterations, pr₃) ← get_16bit_of pr₂
  (saltlen, pr₄) ← get_8bit_of pr₃
  (salt, pr₅) ← xfr_blob_length saltlen pr₄
  (hashlen, pr₆) ← get_8bit_of pr₅
  (nexthash, pr₇) ← xfr_blob_length hashlen pr₆
  (bitmap, pr₈) ← xfr_blob pr₇
  types ← if length bitmap == 0 then ok [] else read_bitmap bitmap
  ok (
    record {
      algorithm = algorithm;
      flags = flags;
      iterations = iterations;
      salt = salt;
      nexthash = nexthash;
      types = types;
    },
    pr₈,
  )
