-- ===== src/Wire/Reader.antt =====
-- `PacketReader` of pdns/pdns/dnsparser.hh and pdns/pdns/dnsparser.cc: the reader's position runs
-- through the packet behind its header of 12 bytes.
pub mod Labels
pub mod Total
use powerdns_improved_lua.Prelude.{
  ℕ, zero, suc, ◌+◌, ◌-◌, ◌*◌, ◌/◌, ◌%◌, ◌^◌, Bool, true, false, ◌||◌, ◌&&◌, not, List, [], ◌∷◌,
  ◌++◌, length, leb, ltb, ◌==◌, if◌then◌else◌, take, drop,
}
use powerdns_improved_lua.Name.{Bytes}
use powerdns_improved_lua.Wire.{Result, ok, err, out_of_range, moad, length_error, stuck, ◌>>=◌, at}

pub record PacketReader : Type 0 where
  pub pos : ℕ
  pub startrecordpos : ℕ
  pub recordlen : ℕ
  pub content : Bytes

-- The position is a uint16_t.
abbrev pub next16 : ℕ → ℕ
next16 pos = (pos + 1) % 2 ^ 16

-- `content.at(pos++)`.
unfoldable pub take_byte : Bytes → ℕ → Result (ℕ × ℕ)
take_byte content pos = do v ← at content pos; ok (v, next16 pos)

-- `ret += content.at(pos++)`, with the sum in the width of `ret`.
unfoldable pub shift_in : ℕ → Bytes → ℕ → ℕ → Result (ℕ × ℕ)
unfolding take_byte
shift_in width content ret pos = do
  (v, pos') ← take_byte content pos
  ok ((ret * 256 % 2 ^ width + v) % 2 ^ width, pos')

unfoldable pub get_8bit_int : Bytes → ℕ → Result (ℕ × ℕ)
unfolding take_byte
get_8bit_int content pos = take_byte content pos

unfoldable pub get_16bit_int : Bytes → ℕ → Result (ℕ × ℕ)
unfolding shift_in
get_16bit_int content pos = do (a, p) ← shift_in 16 content 0 pos; shift_in 16 content a p

unfoldable pub get_32bit_int : Bytes → ℕ → Result (ℕ × ℕ)
unfolding shift_in
get_32bit_int content pos = do
  (a, p) ← shift_in 32 content 0 pos
  (b, q) ← shift_in 32 content a p
  (c, r) ← shift_in 32 content b q
  shift_in 32 content c r

unfoldable pub xfr_48bit_int : Bytes → ℕ → Result (ℕ × ℕ)
unfolding shift_in
xfr_48bit_int content pos = do
  (a, p) ← shift_in 64 content 0 pos
  (b, q) ← shift_in 64 content a p
  (c, r) ← shift_in 64 content b q
  (d, s) ← shift_in 64 content c r
  (e, t) ← shift_in 64 content d s
  shift_in 64 content e t

-- What one byte of a label appends: dots and backslashes are escaped.
unfoldable pub escaped : ℕ → Bytes
escaped c = if c == b'.' || c == b'\\' then b'\\' ∷ c ∷ [] else c ∷ []

-- The loop over the bytes of one label.
unfoldable pub label_bytes : ℕ → Bytes → ℕ → Bytes → Result (Bytes × ℕ)
label_bytes zero content frompos ret = ok (ret, frompos)
label_bytes (suc n) content frompos ret = do
  c ← at content frompos
  label_bytes n content (next16 frompos) (ret ++ escaped c)

-- A compression pointer at `frompos`, whose first byte is `labellen`. `follow` is the recursive
-- call, at an offset that is a uint16_t; 12 is sizeof(dnsheader).
unfoldable pub read_pointer :
    (ℕ → Bytes → Result (Bytes × ℕ)) → Bytes → ℕ → ℕ → Bytes → Result (Bytes × ℕ)
read_pointer follow content labellen frompos ret = do
  low ← at content (next16 frompos)
  (whole, _) ← follow ((256 * (labellen % 64) + low + 2 ^ 16 - 12) % 2 ^ 16) ret
  ok (whole, next16 (next16 frompos))

-- The loop over the labels.
unfoldable pub label_loop :
    (ℕ → Bytes → Result (Bytes × ℕ)) → ℕ → Bytes → ℕ → Bytes → Result (Bytes × ℕ)
label_loop follow zero content frompos ret = err stuck
label_loop follow (suc fuel) content frompos ret = do
  labellen ← at content frompos
  let pointer = read_pointer follow content labellen frompos ret
  let label = label_bytes labellen content (next16 frompos) ret >>= λ (ret', frompos').
      label_loop follow fuel content frompos' (ret' ++ (b'.' ∷ []))
  if labellen == 0
      then ok ((if length ret == 0 then b'.' ∷ [] else ret), next16 frompos)
      else if leb 192 labellen
      then pointer
      else label

-- The first argument is 11 - recurs: none is left where `recurs > 10`.
unfoldable pub get_label_from_content : ℕ → Bytes → ℕ → Bytes → Result (Bytes × ℕ)
get_label_from_content zero content frompos ret = err moad
get_label_from_content (suc levels) content frompos ret =
    label_loop (get_label_from_content levels content) (suc (length content)) content frompos ret

-- `getLabel` and `xfrLabel`.
unfoldable pub get_label : Bytes → ℕ → Result (Bytes × ℕ)
get_label content pos = get_label_from_content 11 content pos []

-- The methods that keep the place of the record.
unfoldable pub get_label_of : PacketReader → Result (Bytes × PacketReader)
unfolding get_label
get_label_of pr = do
  (label, pos') ← get_label pr.content pr.pos
  ok (label, record pr { pos = pos' })

unfoldable pub get_16bit_of : PacketReader → Result (ℕ × PacketReader)
unfolding get_16bit_int
get_16bit_of pr = do (v, pos') ← get_16bit_int pr.content pr.pos; ok (v, record pr { pos = pos' })

-- `dnsrecordheader`: type, class and length are uint16_t, the ttl is a uint32_t.
pub record RecordHeader : Type 0 where
  pub type : ℕ
  pub class : ℕ
  pub ttl : ℕ
  pub clen : ℕ

-- The ten bytes in network order, which is how the packed struct lies in memory.
unfoldable pub get_dnsrecordheader : PacketReader → Result (RecordHeader × PacketReader)
unfolding get_16bit_int get_32bit_int
get_dnsrecordheader pr = do
  (ty, p) ← get_16bit_int pr.content pr.pos
  (cl, q) ← get_16bit_int pr.content p
  (tt', r) ← get_32bit_int pr.content q
  (len, s) ← get_16bit_int pr.content r
  ok (
    record { type = ty; class = cl; ttl = tt'; clen = len },
    record pr { pos = s; startrecordpos = s; recordlen = len },
  )

-- `copyRecord` into a vector; its loop reads byte after byte.
unfoldable pub copy_record : ℕ → Bytes → ℕ → Result (Bytes × ℕ)
copy_record zero content pos = ok ([], pos)
copy_record (suc n) content pos = do
  v ← at content pos
  (rest, pos') ← copy_record n content (next16 pos)
  ok (v ∷ rest, pos')

unfoldable pub copy_record_of : ℕ → PacketReader → Result (Bytes × PacketReader)
unfolding copy_record
copy_record_of len pr = do
  (bytes, pos') ← copy_record len pr.content pr.pos
  ok (bytes, record pr { pos = pos' })

-- `xfrBlob(blob)`: the rest of the record. The bytes are named by their first and last place, and
-- both places are checked; where the first is behind the end, their number is negative, and `assign`
-- of std::string throws.
unfoldable pub xfr_blob : PacketReader → Result (Bytes × PacketReader)
xfr_blob pr = do
  let end = pr.startrecordpos + pr.recordlen
  let blob = at pr.content pr.pos >>= λ _. at pr.content (end - 1) >>= λ _.
      if ltb end pr.pos then err length_error else ok (take (end - pr.pos) (drop pr.pos pr.content))
  bytes ← if pr.recordlen == 0 then ok [] else blob
  ok (bytes, record pr { pos = end % 2 ^ 16 })

unfoldable pub txt_escape : Bytes → Bytes
txt_escape [] = []
txt_escape (c ∷ name) =
    let rest = txt_escape name in if c == b'"' || c == b'\\' then b'\\' ∷ c ∷ rest else c ∷ rest

-- One round of the loop of `getText`: the separating space, and a text in quotes.
unfoldable pub text_step : PacketReader → Bytes → Result (Bytes × PacketReader)
unfolding txt_escape
text_step pr ret = do
  labellen ← at pr.content pr.pos
  let start = next16 pr.pos
  let val = at pr.content start >>= λ _. at pr.content (start + labellen - 1) >>= λ _.
      ok (txt_escape (take labellen (drop start pr.content)))
  text ← if labellen == 0 then ok [] else val
  ok (
    (if length ret == 0 then [] else ret ++ (b' ' ∷ [])) ++ (b'"' ∷ (text ++ (b'"' ∷ []))),
    record pr { pos = (start + labellen) % 2 ^ 16 },
  )

unfoldable pub text_loop : ℕ → Bool → PacketReader → Bytes → Result (Bytes × PacketReader)
text_loop zero multi pr ret = err stuck
text_loop (suc fuel) multi pr ret =
    let step = text_step pr ret >>= λ (ret', pr').
    (let more = text_loop fuel multi pr' ret' in if multi then more else ok (ret', pr')) in
    if ltb pr.pos (pr.startrecordpos + pr.recordlen) then step else ok (ret, pr)

unfoldable pub get_text : Bool → PacketReader → Result (Bytes × PacketReader)
unfolding text_loop
get_text multi pr = text_loop (suc (length pr.content)) multi pr []
