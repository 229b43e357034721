-- ===== src/Nsec/Packet.antt =====
-- NSEC3 records of pdns/pdns/nsecrecords.cc in a packet: what is read of what was written.
use mathlib.Core.Path.{subst}
use powerdns_improved_lua.Prelude.{
  ℕ, ◌+◌, ◌%◌, ◌^◌, ◌≤◌, ◌<◌, ◌≡◌, refl, sym, ap, ◌∙◌, List, [], ◌∷◌, ◌++◌, ◌==◌, if◌then◌else◌,
  arith, length, Option, none, some, append_assoc, length-append,
}
use powerdns_improved_lua.Name.{Bytes}
use powerdns_improved_lua.Wire.{Result, ok, err}
use powerdns_improved_lua.Wire.Numbers.{bytes16}
use powerdns_improved_lua.Wire.Reader.{PacketReader, get_16bit_of, xfr_blob}
use powerdns_improved_lua.Wire.Writer.{PacketWriter}
use powerdns_improved_lua.Nsec.{
  Nsec3Record, get_8bit_of, xfr_blob_length, nsec3_make, nsec3_to_packet, nsec_bitmap, read_bitmap,
}
use powerdns_improved_lua.Nsec.RoundTrip.{
  Types, IsReadAs, IsSetOf, length-nsec_bitmap, read_bitmap-nsec_bitmap,
}
use powerdns_improved_lua.Wire.Writer as Writer
use powerdns_improved_lua.Nsec.Parts.{Stands, moved, byte_read, blob_read, last_read, word_read}

-- The data of an NSEC3 record, with its bitmap.
abbrev pub nsec3_bytes : Nsec3Record → Bytes → Bytes
nsec3_bytes r bitmap =
    r.algorithm
    ∷ r.flags
    ∷ (bytes16 r.iterations
        ++ (length r.salt ∷ (r.salt ++ (length r.nexthash ∷ (r.nexthash ++ bitmap)))))

pub record FitsNsec3 (r : Nsec3Record) : Type 0 where
  pub algorithm : r.algorithm < 256
  pub flags : r.flags < 256
  pub iterations : r.iterations < 2 ^ 16
  pub salt : length r.salt < 256
  pub nexthash : length r.nexthash < 256

make_steps :
    (r : Nsec3Record) (bitmap : Bytes) (types : List ℕ) (pr a b c d e f g h : PacketReader)
    → get_8bit_of pr ≡ ok (r.algorithm, a)
    → get_8bit_of a ≡ ok (r.flags, b)
    → get_16bit_of b ≡ ok (r.iterations, c)
    → get_8bit_of c ≡ ok (length r.salt, d)
    → xfr_blob_length (length r.salt) d ≡ ok (r.salt, e)
    → get_8bit_of e ≡ ok (length r.nexthash, f)
    → xfr_blob_length (length r.nexthash) f ≡ ok (r.nexthash, g)
    → xfr_blob g ≡ ok (bitmap, h)
    → (if length bitmap == 0 then ok [] else read_bitmap bitmap) ≡ ok types
    → nsec3_make pr ≡ ok (record r { types = types }, h)
unfolding nsec3_make
make_steps r bitmap types pr a b c d e f g h p q s t u v w x y = rw (p, q, s, t, u, v, w, x, y) refl

nested : Nsec3Record → Bytes → Bytes
nested r rest =
    r.algorithm
    ∷ (r.flags
        ∷ (bytes16 r.iterations
            ++ (length r.salt ∷ (r.salt ++ (length r.nexthash ∷ (r.nexthash ++ rest))))))

nested-append :
    (r : Nsec3Record) (bitmap rest : Bytes)
    → nsec3_bytes r bitmap ++ rest ≡ nested r (bitmap ++ rest)
unfolding nested bytes16
nested-append r bitmap rest =
    ap (λ (t : Bytes). r.algorithm ∷ r.flags ∷ (bytes16 r.iterations ++ (length r.salt ∷ t)))
      (append_assoc r.salt (length r.nexthash ∷ (r.nexthash ++ bitmap)) rest
        ∙ ap (λ (t : Bytes). r.salt ++ (length r.nexthash ∷ t))
            (append_assoc r.nexthash bitmap rest))

-- What was read in front of the bitmap.
front : Nsec3Record → Bytes → Bytes
front r pre =
    (((((pre ++ (r.algorithm ∷ [])) ++ (r.flags ∷ [])) ++ bytes16 r.iterations)
        ++ (length r.salt ∷ []))
      ++ r.salt
      ++ (length r.nexthash ∷ []))
    ++ r.nexthash

front-append :
    (r : Nsec3Record) (pre bitmap : Bytes) → front r pre ++ bitmap ≡ pre ++ nsec3_bytes r bitmap
unfolding front bytes16
front-append r pre bitmap =
    rw
      (
        append_assoc, append_assoc, append_assoc, append_assoc, append_assoc, append_assoc,
        append_assoc,
      )
      refl

make_read :
    (r : Nsec3Record) (bitmap : Bytes) (types : List ℕ) (pr : PacketReader) (pre rest : Bytes)
    → r.iterations < 2 ^ 16
    → 0 < length bitmap
    → read_bitmap bitmap ≡ ok types
    → Stands pr pre (nested r (bitmap ++ rest))
    → 0 < pr.recordlen
    → pr.startrecordpos + pr.recordlen ≡ length (front r pre ++ bitmap)
    → nsec3_make pr ≡ ok (record r { types = types }, moved pr (length (front r pre ++ bitmap)))
unfolding nested front
make_read r bitmap types pr pre rest low more found stands long end =
    let (p, at_a) = byte_read pr pre _ r.algorithm stands in
    let (q, at_b) = byte_read _ _ _ r.flags at_a in
    let (s, at_c) = word_read _ _ _ r.iterations at_b low in
    let (t, at_d) = byte_read _ _ _ (length r.salt) at_c in
    let (u, at_e) = blob_read _ _ r.salt _ at_d in
    let (v, at_f) = byte_read _ _ _ (length r.nexthash) at_e in
    let (w, at_g) = blob_read _ _ r.nexthash _ at_f in
    let x = last_read _ _ bitmap rest at_g more long end in
    make_steps r bitmap types pr _ _ _ _ _ _ _ _ p q s t u v w x (ground arith)

found_bitmap :
    (types : List ℕ) (written : Option Bytes)
    → nsec_bitmap types ≡ written
    → IsReadAs types written
    → (bitmap : Bytes) × (found : List ℕ) × (nsec_bitmap types ≡ some bitmap)
      × (read_bitmap bitmap ≡ ok found)
      × IsSetOf types (ok found)
found_bitmap types none e h = absurd h
found_bitmap types (some bitmap) e h = go (read_bitmap bitmap) refl h
  where
    go :
        (r : Result (List ℕ))
        → read_bitmap bitmap ≡ r
        → IsSetOf types r
        → (bitmap : Bytes) × (found : List ℕ) × (nsec_bitmap types ≡ some bitmap)
          × (read_bitmap bitmap ≡ ok found)
          × IsSetOf types (ok found)
    go (ok found) k same = (bitmap, found, e, k, same)
    go (err why) k same = absurd same

-- What is written behind the data that is pending.
chained : Nsec3Record → Bytes → Bytes → Bytes
chained r bitmap pending =
    (((((((pending ++ ((r.algorithm % 256) ∷ [])) ++ ((r.flags % 256) ∷ []))
              ++ bytes16 r.iterations)
            ++ ((length r.salt % 256) ∷ []))
          ++ r.salt)
        ++ ((length r.nexthash % 256) ∷ []))
      ++ r.nexthash)
    ++ bitmap

to_packet_some :
    (r : Nsec3Record) (pw : PacketWriter) (bitmap : Bytes)
    → nsec_bitmap r.types ≡ some bitmap
    → nsec3_to_packet r pw ≡ some (record pw { pending = chained r bitmap pw.pending })
unfolding nsec3_to_packet Writer.xfr_blob Writer.xfr_8bit_int Writer.xfr_16bit_int
    Writer.append_pending chained
to_packet_some r pw bitmap e = ground arith

chained-nsec3_bytes :
    (r : Nsec3Record) (bitmap : Bytes) → FitsNsec3 r → chained r bitmap [] ≡ nsec3_bytes r bitmap
unfolding chained bytes16
chained-nsec3_bytes r bitmap fits =
    let a : r.algorithm % 256 ≡ r.algorithm = let k = fits.algorithm in omega arith in
    let b : r.flags % 256 ≡ r.flags = let k = fits.flags in omega arith in
    let c : length r.salt % 256 ≡ length r.salt = let k = fits.salt in omega arith in
    let d : length r.nexthash % 256 ≡ length r.nexthash = let k = fits.nexthash in omega arith in
    rw (a, b, c, d) (rw (append_assoc, append_assoc) refl)

-- A reader at the data of a record, behind `pre`.
abbrev pub reader_at : Bytes → Bytes → Bytes → PacketReader
reader_at pre data_bytes rest = record {
  pos = length pre;
  startrecordpos = length pre;
  recordlen = length data_bytes;
  content = pre ++ (data_bytes ++ rest);
}

-- The record was read, up to `end`: the same fields and the same set of types.
abbrev pub IsNsec3Of : Nsec3Record → ℕ → Result (Nsec3Record × PacketReader) → Type 0
IsNsec3Of r end (ok (r', pr)) =
    (record r' { types = r.types } ≡ r) × (pr.pos ≡ end) × IsSetOf r.types (ok r'.types)
IsNsec3Of r end (err why) = ⊥

abbrev pub IsNsec3Read : Nsec3Record → Bytes → Bytes → Option PacketWriter → Type 0
IsNsec3Read r pre rest none = ⊥
IsNsec3Read r pre rest (some pw) =
    IsNsec3Of r (length (pre ++ pw.pending)) (nsec3_make (reader_at pre pw.pending rest))

length-nsec3_bytes :
    (r : Nsec3Record) (bitmap : Bytes)
    → length (nsec3_bytes r bitmap) ≡ 6 + length r.salt + length r.nexthash + length bitmap
unfolding bytes16
length-nsec3_bytes r bitmap = omega (
  arith,
  length-append r.salt (length r.nexthash ∷ (r.nexthash ++ bitmap)),
  length-append r.nexthash bitmap,
)

read_at :
    (r : Nsec3Record) (pre rest bitmap : Bytes) (found : List ℕ)
    → FitsNsec3 r
    → length pre + length rest + 550 < 2 ^ 16
    → (0 < length bitmap) × (length bitmap ≤ 34)
    → read_bitmap bitmap ≡ ok found
    → nsec3_make (reader_at pre (nsec3_bytes r bitmap) rest)
      ≡ ok (
        record r { types = found },
        moved (reader_at pre (nsec3_bytes r bitmap) rest) (length (front r pre ++ bitmap)),
      )
read_at r pre rest bitmap found fits room (more, most) k =
    let size = length-nsec3_bytes r bitmap in
    let salt = fits.salt in
    let hash = fits.nexthash in
    let whole = length-append pre (nsec3_bytes r bitmap) in
    let all = length-append pre (nsec3_bytes r bitmap ++ rest) in
    let tail = length-append (nsec3_bytes r bitmap) rest in
    let stands : Stands (reader_at pre (nsec3_bytes r bitmap) rest) pre
        (nested r (bitmap ++ rest)) =
      record {
        split = ap (λ (t : Bytes). pre ++ t) (nested-append r bitmap rest);
        here = refl;
        small = omega arith;
      } in
    make_read r bitmap found (reader_at pre (nsec3_bytes r bitmap) rest) pre rest fits.iterations
      more k stands (omega arith) (sym whole ∙ ap length (sym (front-append r pre bitmap)))

-- An NSEC3 record whose numbers fit their fields, with types below 255 in ascending order, is written
-- to the packet and read back from it, wherever the record stands and whatever follows: the fields
-- are the same, a type is in the set exactly if it was, and the reader is behind the record.
pub nsec3_make-nsec3_to_packet :
    (r : Nsec3Record) (pw : PacketWriter) (pre rest : Bytes)
    → FitsNsec3 r
    → Types 0 r.types
    → pw.pending ≡ []
    → length pre + length rest + 550 < 2 ^ 16
    → IsNsec3Read r pre rest (nsec3_to_packet r pw)
nsec3_make-nsec3_to_packet r pw pre rest fits types none_yet room =
    let (bitmap, found, e, k, same) =
      found_bitmap r.types (nsec_bitmap r.types) refl (read_bitmap-nsec_bitmap r.types types) in
    let bytes = ap (chained r bitmap) none_yet ∙ chained-nsec3_bytes r bitmap fits in
    let written =
      to_packet_some r pw bitmap e ∙ ap (λ (t : Bytes). some (record pw { pending = t })) bytes in
    let made =
      read_at r pre rest bitmap found fits room (length-nsec_bitmap r.types bitmap types e) k in
    subst (IsNsec3Read r pre rest) (sym written) (
      subst (IsNsec3Of r (length (pre ++ nsec3_bytes r bitmap))) (sym made)
        (refl, ap length (front-append r pre bitmap), same))
