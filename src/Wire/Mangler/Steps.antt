-- ===== src/Wire/Mangler/Steps.antt =====
-- The methods of DNSPacketMangler where the bytes they read are known: pdns/pdns/dnsparser.cc.
use powerdns_improved_lua.Prelude.{
  ℕ, zero, suc, ◌+◌, ◌-◌, ◌*◌, ◌/◌, ◌%◌, ◌^◌, ◌≤◌, ◌<◌, ◌≡◌, refl, sym, ap, ◌∙◌, false, List, [],
  ◌∷◌, ◌++◌, length, length-append, leb, ◌==◌, take, drop, get_or, arith, append_assoc,
}
use powerdns_improved_lua.Name.{Bytes}
use powerdns_improved_lua.Text.Relative.{take-append}
use powerdns_improved_lua.Wire.{ok}
use powerdns_improved_lua.Wire.Numbers.{bytes16, bytes32}
use powerdns_improved_lua.Wire.Reader.Labels.{AreLabels, label_seq, count}
use powerdns_improved_lua.Wire.Writer.Names.{wire_name}
use powerdns_improved_lua.Wire.Mangler.{
  move_offset, get8, get16, skip_label_loop, skip_label, read32, decrease_and_skip,
}

get_or-behind :
    (pre ys : Bytes) (o i : ℕ) → o ≡ length pre + i → get_or (pre ++ ys) o 0 ≡ get_or ys i 0
get_or-behind [] ys o i h = ap (λ (k : ℕ). get_or ys k 0) (h ∙ omega arith)
get_or-behind (x ∷ pre) ys zero i h = absurd (omega arith)
get_or-behind (x ∷ pre) ys (suc o) i h = get_or-behind pre ys o i (omega arith)

drop-behind : (pre ys : Bytes) (o i : ℕ) → o ≡ length pre + i → drop o (pre ++ ys) ≡ drop i ys
drop-behind [] ys o i h = ap (λ (k : ℕ). drop k ys) (h ∙ omega arith)
drop-behind (x ∷ pre) ys zero i h = absurd (omega arith)
drop-behind (x ∷ pre) ys (suc o) i h = drop-behind pre ys o i (omega arith)

pub move_offset-to :
    (packet : Bytes) (by offset : ℕ)
    → length packet < 2 ^ 31
    → by < 2 ^ 16
    → offset + by ≤ length packet
    → move_offset packet by offset ≡ ok (offset + by)
unfolding move_offset
move_offset-to packet by offset small h k = ground arith

pub get8-at :
    (packet pre rest : Bytes) (c o : ℕ)
    → packet ≡ pre ++ (c ∷ rest)
    → length packet < 2 ^ 31
    → o ≡ length pre
    → get8 packet o ≡ ok (c, o + 1)
unfolding get8
get8-at packet pre rest c o e small h =
    let moved =
      move_offset-to packet 1 o small (omega arith)
        (omega (arith, ap length e, length-append pre (c ∷ rest))) in
    let byte : get_or packet o 0 ≡ c =
      ap (λ (t : Bytes). get_or t o 0) e ∙ get_or-behind pre (c ∷ rest) o 0 (omega arith) in
    rw (moved, byte) refl

pub get16-at :
    (packet pre rest : Bytes) (v o : ℕ)
    → packet ≡ pre ++ (bytes16 v ++ rest)
    → length packet < 2 ^ 31
    → v < 2 ^ 16
    → o ≡ length pre
    → get16 packet o ≡ ok (v, o + 2)
unfolding get16 bytes16
get16-at packet pre rest v o e small fits h =
    let ys = v / 256 % 256 ∷ v % 256 ∷ rest in
    let moved =
      move_offset-to packet 2 o small (omega arith)
        (omega (arith, ap length e, length-append pre ys)) in
    let high : get_or packet o 0 ≡ v / 256 % 256 =
      ap (λ (t : Bytes). get_or t o 0) e ∙ get_or-behind pre ys o 0 (omega arith) in
    let low : get_or packet (o + 1) 0 ≡ v % 256 =
      ap (λ (t : Bytes). get_or t (o + 1) 0) e ∙ get_or-behind pre ys (o + 1) 1 (omega arith) in
    let value : v / 256 % 256 * 256 + v % 256 ≡ v = omega arith in rw (moved, high, low, value) refl

-- What a time to live becomes.
abbrev pub lowered : ℕ → ℕ → ℕ
lowered seconds ttl = (ttl + 2 ^ 32 - seconds % 2 ^ 32) % 2 ^ 32

read32-at :
    (packet pre rest : Bytes) (v o : ℕ)
    → packet ≡ pre ++ (bytes32 v ++ rest)
    → v < 2 ^ 32
    → o ≡ length pre
    → read32 packet o ≡ v
unfolding read32 bytes32
read32-at packet pre rest v o e fits h =
    let ys = v / 2 ^ 24 % 256 ∷ v / 2 ^ 16 % 256 ∷ v / 256 % 256 ∷ v % 256 ∷ rest in
    let a : get_or packet o 0 ≡ v / 2 ^ 24 % 256 =
      ap (λ (t : Bytes). get_or t o 0) e ∙ get_or-behind pre ys o 0 (omega arith) in
    let b : get_or packet (o + 1) 0 ≡ v / 2 ^ 16 % 256 =
      ap (λ (t : Bytes). get_or t (o + 1) 0) e ∙ get_or-behind pre ys (o + 1) 1 (omega arith) in
    let c : get_or packet (o + 2) 0 ≡ v / 256 % 256 =
      ap (λ (t : Bytes). get_or t (o + 2) 0) e ∙ get_or-behind pre ys (o + 2) 2 (omega arith) in
    let d : get_or packet (o + 3) 0 ≡ v % 256 =
      ap (λ (t : Bytes). get_or t (o + 3) 0) e ∙ get_or-behind pre ys (o + 3) 3 (omega arith) in
    rw (a, b, c, d) (omega arith)

pub length-bytes32 : (v : ℕ) (rest : Bytes) → length (bytes32 v ++ rest) ≡ 4 + length rest
unfolding bytes32
length-bytes32 v rest = omega arith

pub length-ttl : (v : ℕ) → length (bytes32 v) ≡ 4
unfolding bytes32
length-ttl v = refl

drop-bytes32 : (v : ℕ) (rest : Bytes) → drop 4 (bytes32 v ++ rest) ≡ rest
unfolding bytes32
drop-bytes32 v rest = refl

pub decrease_and_skip-at :
    (seconds v o : ℕ) (packet pre rest : Bytes)
    → packet ≡ pre ++ (bytes32 v ++ rest)
    → length packet < 2 ^ 31
    → v < 2 ^ 32
    → o ≡ length pre
    → decrease_and_skip seconds packet o ≡ ok (pre ++ (bytes32 (lowered seconds v) ++ rest), o + 4)
decrease_and_skip-at seconds v o packet pre rest e small fits h =
    let ys = bytes32 v ++ rest in
    let moved =
      move_offset-to packet 4 o small (omega arith)
        (omega (arith, ap length e, length-append pre ys, length-bytes32 v rest)) in
    let back : o + 4 - 4 ≡ length pre = omega arith in
    let first : take (length pre) packet ≡ pre = ap (take (length pre)) e ∙ take-append pre ys in
    let last : drop (o + 4) packet ≡ rest =
      ap (drop (o + 4)) e ∙ drop-behind pre ys (o + 4) 4 (omega arith) ∙ drop-bytes32 v rest in
    let value = read32-at packet pre rest v o e fits h in
    unfold decrease_and_skip in rw (moved, back, first, last, value) refl

wire_name-cons :
    (l : Bytes) (ls : List Bytes) (rest : Bytes)
    → wire_name (l ∷ ls) ++ rest ≡ length l ∷ (l ++ (wire_name ls ++ rest))
unfolding wire_name label_seq
wire_name-cons l ls rest = ap (◌∷◌ (length l)) (
    append_assoc (l ++ label_seq ls) (0 ∷ []) rest
    ∙ append_assoc l (label_seq ls) (0 ∷ rest)
    ∙ ap (◌++◌ l) (sym (append_assoc (label_seq ls) (0 ∷ []) rest)))

length-wire_name-cons :
    (l : Bytes) (ls : List Bytes)
    → length (wire_name (l ∷ ls)) ≡ 1 + length l + length (wire_name ls)
unfolding wire_name label_seq
length-wire_name-cons l ls = omega (
  arith,
  length-append (l ++ label_seq ls) (0 ∷ []),
  length-append l (label_seq ls),
  length-append (label_seq ls) (0 ∷ []),
)

count-lt : (ls : List Bytes) → count ls < length (wire_name ls)
count-lt [] = unfold wire_name label_seq in omega arith
count-lt (l ∷ ls) = omega (arith, length-wire_name-cons l ls, count-lt ls)

skip_label_loop-at :
    (ls : List Bytes) (fuel o : ℕ) (packet pre rest : Bytes)
    → packet ≡ pre ++ (wire_name ls ++ rest)
    → length packet < 2 ^ 31
    → AreLabels ls
    → count ls < fuel
    → o ≡ length pre
    → skip_label_loop fuel packet o ≡ ok (o + length (wire_name ls))
unfolding skip_label_loop
skip_label_loop-at ls zero o packet pre rest e small w enough h = absurd (omega arith)
skip_label_loop-at [] (suc fuel) o packet pre rest e small w enough h =
    let split : packet ≡ pre ++ (0 ∷ rest) = unfold wire_name label_seq in e in
    let one : length (wire_name []) ≡ 1 = unfold wire_name label_seq in refl in
    rw (get8-at packet pre rest 0 o split small h, one) refl
skip_label_loop-at (l ∷ ls) (suc fuel) o packet pre rest e small ((full, short), ws) enough h =
    let tail = l ++ (wire_name ls ++ rest) in
    let split : packet ≡ pre ++ (length l ∷ tail) = e ∙ ap (◌++◌ pre) (wire_name-cons l ls rest) in
    let here = pre ++ (length l ∷ l) in
    let later : packet ≡ here ++ (wire_name ls ++ rest) =
      split ∙ sym (append_assoc pre (length l ∷ l) (wire_name ls ++ rest)) in
    let size : length packet ≡ length here + length (wire_name ls ++ rest) =
      ap length later ∙ length-append here (wire_name ls ++ rest) in
    let place = length-append pre (length l ∷ l) in
    let first = get8-at packet pre tail (length l) o split small h in
    let moved = move_offset-to packet (length l) (o + 1) small (omega arith) (omega arith) in
    let nonzero : (length l == 0) ≡ false = ground arith in
    let plain : leb 192 (length l) ≡ false = ground arith in
    let rest_skipped =
      skip_label_loop-at ls fuel (o + 1 + length l) packet here rest later small ws (omega arith)
        (omega arith) in
    rw (first, nonzero, plain, moved, rest_skipped)
      (ap (λ (k : ℕ). ok k) (omega (arith, length-wire_name-cons l ls)))

pub skip_label-at :
    (ls : List Bytes) (o : ℕ) (packet pre rest : Bytes)
    → packet ≡ pre ++ (wire_name ls ++ rest)
    → length packet < 2 ^ 31
    → AreLabels ls
    → o ≡ length pre
    → skip_label packet o ≡ ok (o + length (wire_name ls))
unfolding skip_label
skip_label-at ls o packet pre rest e small w h =
    let enough : count ls < suc (length packet) = omega (
      arith,
      count-lt ls,
      ap length e,
      length-append pre (wire_name ls ++ rest),
      length-append (wire_name ls) rest,
    ) in
    skip_label_loop-at ls (suc (length packet)) o packet pre rest e small w enough h
