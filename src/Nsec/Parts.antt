-- ===== src/Nsec/Parts.antt =====
-- Parts of record data, read one after the other, for pdns/pdns/nsecrecords.cc: single bytes, numbers
-- and blobs of PacketReader in pdns/pdns/dnsparser.cc.
use powerdns_improved_lua.Prelude.{
  ltb, ℕ, zero, suc, ◌+◌, ◌-◌, ◌%◌, ◌^◌, ◌<◌, ◌≡◌, refl, sym, ap, ◌∙◌, false, [], ◌∷◌, ◌++◌, ◌==◌,
  arith, take, drop, length, append_assoc, append-nil, length-append,
}
use powerdns_improved_lua.Name.{Bytes}
use powerdns_improved_lua.Wire.{ok, at}
use powerdns_improved_lua.Wire.Numbers.{bytes16, get_16bit_int-bytes16}
use powerdns_improved_lua.Wire.Reader.{
  PacketReader, get_16bit_of, xfr_blob, get_8bit_int, take_byte,
}
use powerdns_improved_lua.Wire.Reader.Labels.{at_of_split, next_small}
use powerdns_improved_lua.Text.Relative.{take-append}
use powerdns_improved_lua.RecordText.Fields.{drop-length}
use powerdns_improved_lua.Nsec.{get_8bit_of, xfr_blob_length}

-- A reader that has read `pre`, and stands in front of `rest`.
pub record Stands (pr : PacketReader) (pre rest : Bytes) : Type 0 where
  pub split : pr.content ≡ pre ++ rest
  pub here : pr.pos ≡ length pre
  pub small : length pr.content < 2 ^ 16

abbrev pub moved : PacketReader → ℕ → PacketReader
moved pr n = record pr { pos = n }

pub byte_read :
    (pr : PacketReader) (pre rest : Bytes) (c : ℕ)
    → Stands pr pre (c ∷ rest)
    → (get_8bit_of pr ≡ ok (c, moved pr (length (pre ++ (c ∷ [])))))
      × Stands (moved pr (length (pre ++ (c ∷ [])))) (pre ++ (c ∷ [])) rest
unfolding get_8bit_of get_8bit_int take_byte
byte_read pr pre rest c s = (
  rw s.here (
      rw
        (
          at_of_split pr.content pre rest c s.split,
          next_small pr.content pre rest c s.split s.small,
        )
        refl),
  record { split = s.split ∙ sym (append_assoc pre (c ∷ []) rest); here = refl; small = s.small },
)

at_some : (xs : Bytes) (i : ℕ) → i < length xs → (v : ℕ) × (at xs i ≡ ok v)
unfolding at
at_some [] i h = absurd (omega arith)
at_some (x ∷ xs) zero h = (x, refl)
at_some (x ∷ xs) (suc i) h = at_some xs i (omega arith)

-- Bytes behind those that were read.
cut :
    (content pre blob rest : Bytes)
    → content ≡ pre ++ (blob ++ rest)
    → take (length blob) (drop (length pre) content) ≡ blob
cut content pre blob rest e =
    ap (λ (t : Bytes). take (length blob) (drop (length pre) t)) e
    ∙ ap (take (length blob)) (drop-length pre (blob ++ rest))
    ∙ take-append blob rest

blob_bytes :
    (pr : PacketReader) (pre blob rest : Bytes)
    → Stands pr pre (blob ++ rest)
    → xfr_blob_length (length blob) pr ≡ ok (blob, moved pr (length (pre ++ blob)))
unfolding xfr_blob_length
blob_bytes pr pre [] rest s =
    let same : pr.pos ≡ length (pre ++ []) = s.here ∙ ap length (sym (append-nil pre)) in
    ap (λ (n : ℕ). ok ([], moved pr n)) same
blob_bytes pr pre (c ∷ blob) rest s =
    let size : length pr.content ≡ length pre + (suc (length blob) + length rest) =
      omega (
        arith,
        ap length s.split,
        length-append pre (c ∷ (blob ++ rest)),
        length-append blob rest,
      ) in
    let first = at_of_split pr.content pre (blob ++ rest) c s.split in
    let (v, second) = at_some pr.content (length pre + suc (length blob) - 1) (omega arith) in
    let bytes = cut pr.content pre (c ∷ blob) rest s.split in
    let plain : (suc (length blob) == 0) ≡ false = ground arith in
    let small = s.small in
    let place : (length pre + suc (length blob)) % 2 ^ 16 ≡ length (pre ++ (c ∷ blob)) =
      omega (arith, length-append pre (c ∷ blob)) in
    rw (s.here, plain, first, second, bytes, place) refl

pub blob_read :
    (pr : PacketReader) (pre blob rest : Bytes)
    → Stands pr pre (blob ++ rest)
    → (xfr_blob_length (length blob) pr ≡ ok (blob, moved pr (length (pre ++ blob))))
      × Stands (moved pr (length (pre ++ blob))) (pre ++ blob) rest
blob_read pr pre blob rest s = (
  blob_bytes pr pre blob rest s,
  record { split = s.split ∙ sym (append_assoc pre blob rest); here = refl; small = s.small },
)

-- The rest of a record.
pub last_read :
    (pr : PacketReader) (pre blob rest : Bytes)
    → Stands pr pre (blob ++ rest)
    → 0 < length blob
    → 0 < pr.recordlen
    → pr.startrecordpos + pr.recordlen ≡ length (pre ++ blob)
    → xfr_blob pr ≡ ok (blob, moved pr (length (pre ++ blob)))
unfolding xfr_blob
last_read pr pre [] rest s more long end = absurd (omega arith)
last_read pr pre (c ∷ blob) rest s more long end =
    let total = length-append pre (c ∷ blob) in
    let size : length pr.content ≡ length pre + (suc (length blob) + length rest) =
      omega (
        arith,
        ap length s.split,
        length-append pre (c ∷ (blob ++ rest)),
        length-append blob rest,
      ) in
    let first = at_of_split pr.content pre (blob ++ rest) c s.split in
    let (v, second) = at_some pr.content (length (pre ++ (c ∷ blob)) - 1) (omega arith) in
    let width : length (pre ++ (c ∷ blob)) - length pre ≡ suc (length blob) = omega arith in
    let bytes = cut pr.content pre (c ∷ blob) rest s.split in
    let plain : (pr.recordlen == 0) ≡ false = ground arith in
    let small = s.small in
    let place : length (pre ++ (c ∷ blob)) % 2 ^ 16 ≡ length (pre ++ (c ∷ blob)) = omega arith in
    let ahead : ltb (length (pre ++ (c ∷ blob))) (length pre) ≡ false = ground arith in
    rw (plain, end, s.here, first, second, ahead, width, bytes, place) refl

pub word_read :
    (pr : PacketReader) (pre rest : Bytes) (v : ℕ)
    → Stands pr pre (bytes16 v ++ rest)
    → v < 2 ^ 16
    → (get_16bit_of pr ≡ ok (v, moved pr (length (pre ++ bytes16 v))))
      × Stands (moved pr (length (pre ++ bytes16 v))) (pre ++ bytes16 v) rest
unfolding get_16bit_of
word_read pr pre rest v s low =
    let size : length (pre ++ bytes16 v) ≡ length pre + 2 =
      length-append pre (bytes16 v) ∙ unfold bytes16 in refl in
    let small : length (pre ++ (bytes16 v ++ rest)) < 2 ^ 16 =
      let k = s.small in omega (arith, ap length s.split) in
    let read = get_16bit_int-bytes16 v pre rest low small in
    (
      rw (s.split, s.here, read, sym size) refl,
      record {
        split = s.split ∙ sym (append_assoc pre (bytes16 v) rest);
        here = refl;
        small = s.small;
      },
    )
