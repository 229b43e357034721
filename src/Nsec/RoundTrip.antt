-- ===== src/Nsec/RoundTrip.antt =====
-- The set of types behind the bitmap that pdns/pdns/nsecrecords.cc writes and reads.
use mathlib.Core.Path.{subst}
use powerdns_improved_lua.Prelude.{
  ℕ, zero, suc, ◌+◌, ◌-◌, ◌/◌, ◌%◌, ◌≤◌, ◌<◌, ◌≡◌, ◌≢◌, refl, sym, ap, ◌∙◌, inl, inr, true, false,
  ◌||◌, List, [], ◌∷◌, ltb, ◌==◌, if◌then◌else◌, arith, Bool-cases, get_or, drop, take, set, length,
  replicate, length-replicate, Option, none, some,
}
use powerdns_improved_lua.Name.{Bytes, AreBytes}
use powerdns_improved_lua.Wire.{Result, ok, err}
use powerdns_improved_lua.RecursorCache.Range.{contains}
use powerdns_improved_lua.Wire.Writer.Records.{get_or-set_self, get_or-set_ne, length-set}
use powerdns_improved_lua.Nsec.{set_bit, mark, last_marked, nsec_bitmap, read_bytes, read_bitmap}
use powerdns_improved_lua.Nsec.Bits.{type_bit, set_bit_lem, bit_at_zero, bit_at}
use powerdns_improved_lua.Nsec.Reading.{contains-read_all}

-- A set of types that a single window block holds: ascending, each from `lo` on and below 255.
abbrev pub Types : ℕ → List ℕ → Type 0
Types lo [] = Unit
Types lo (t ∷ types) = (lo ≤ t) × (t < 255) × Types (t + 1) types

last_of : ℕ → List ℕ → ℕ
last_of t [] = t
last_of t (u ∷ types) = last_of u types

last_of_lem :
    (lo t u : ℕ) (types : List ℕ)
    → Types lo (t ∷ types)
    → (t ≤ last_of t types)
      × (last_of t types < 255)
      × (contains u (t ∷ types) ≡ true → u ≤ last_of t types)
unfolding last_of
last_of_lem lo t u [] (a, b, c) = (omega arith, b, λ h. ground arith)
last_of_lem lo t u (v ∷ types) (a, b, w) =
    let (x, y, z) = last_of_lem (t + 1) v u types w in
    (
      omega arith,
      y,
      λ h. elim (Bool-cases (u == t)) [ inl same ↦ ground arith | inr differ ↦ z (ground arith) ],
    )

last_marked-last_of :
    (lo t : ℕ) (types : List ℕ) (last : Option ℕ)
    → Types lo (t ∷ types)
    → last_marked (t ∷ types) last ≡ some (last_of t types)
unfolding last_marked last_of
last_marked-last_of lo t [] last (a, b, c) = ground arith
last_marked-last_of lo t (v ∷ types) last (a, b, w) =
    ground (arith, last_marked-last_of (t + 1) v types (some t) w)

mark_lem :
    (lo u : ℕ) (types : List ℕ) (res : Bytes)
    → Types lo types
    → length res ≡ 34
    → AreBytes res
    → (type_bit u (mark types res) ≡ (contains u types || type_bit u res))
      × (length (mark types res) ≡ 34)
      × (get_or (mark types res) 0 0 ≡ get_or res 0 0)
unfolding mark
mark_lem lo u [] res h size bytes = (refl, size, refl)
mark_lem lo u (t ∷ types) res (a, b, w) size bytes =
    let (bit, size', bytes', first') = set_bit_lem t u res (omega arith) size bytes in
    let (x, y, z) = mark_lem (t + 1) u types (set_bit t res) w size' bytes' in
    (ground arith, ground arith, ground arith)

AreBytes-replicate : (n : ℕ) → AreBytes (replicate n 0)
AreBytes-replicate zero = tt
AreBytes-replicate (suc n) = (omega arith, AreBytes-replicate n)

get_or-replicate : (n i : ℕ) → get_or (replicate {A = ℕ} n 0) i 0 ≡ 0
get_or-replicate zero i = refl
get_or-replicate (suc n) zero = refl
get_or-replicate (suc n) (suc i) = get_or-replicate n i

get_or-take :
    (n i : ℕ) (xs : Bytes) → get_or (take n xs) i 0 ≡ (if ltb i n then get_or xs i 0 else 0)
get_or-take zero i xs = ground arith
get_or-take (suc n) i [] = ground arith
get_or-take (suc n) zero (x ∷ xs) = ground arith
get_or-take (suc n) (suc i) (x ∷ xs) = ground (arith, get_or-take n i xs)

get_or-drop : (n i : ℕ) (xs : Bytes) → get_or (drop n xs) i 0 ≡ get_or xs (n + i) 0
get_or-drop zero i xs = let e : i ≡ 0 + i = omega arith in ap (λ (j : ℕ). get_or xs j 0) e
get_or-drop (suc n) i [] = refl
get_or-drop (suc n) i (x ∷ xs) =
    let e : suc n + i ≡ suc (n + i) = omega arith in
    get_or-drop n i xs ∙ ap (λ (j : ℕ). get_or (x ∷ xs) j 0) (sym e)

length-take : (n : ℕ) (xs : Bytes) → n ≤ length xs → length (take n xs) ≡ n
length-take zero xs h = refl
length-take (suc n) [] h = absurd (omega arith)
length-take (suc n) (x ∷ xs) h = ap suc (length-take n xs (omega arith))

type_bit_zero : (u : ℕ) → type_bit u (replicate 34 0) ≡ false
unfolding type_bit
type_bit_zero u =
    ap (bit_at (7 - u % 8)) (get_or-replicate 34 (2 + u / 8)) ∙ bit_at_zero (7 - u % 8)

-- The reading of a block with its length in the second byte.
read_bitmap_block :
    (bitmap : Bytes) (len : ℕ)
    → len ≤ 32
    → length bitmap ≡ len + 2
    → get_or bitmap 0 0 ≡ 0
    → get_or bitmap 1 0 ≡ len
    → read_bitmap bitmap ≡ ok (read_bytes 0 (drop 2 bitmap) [])
unfolding read_bitmap
read_bitmap_block bitmap len small size first second = ground arith

nsec_bitmap-some :
    (t : ℕ) (types : List ℕ)
    → Types 0 (t ∷ types)
    → nsec_bitmap (t ∷ types)
      ≡ some (
          take
            (1 + last_of t types / 8 + 2)
            (set (mark (t ∷ types) (replicate 34 0)) 1 (1 + last_of t types / 8)))
unfolding nsec_bitmap
nsec_bitmap-some t types h = ground (arith, last_marked-last_of 0 t types none h)

-- The bit of a type in the block is that in the buffer, which a length that is too short cuts off.
block_bit :
    (u last : ℕ) (res : Bytes)
    → length res ≡ 34
    → (type_bit u res ≡ true → u ≤ last)
    → bit_at
        (7 - u % 8)
        (get_or (drop 2 (take (1 + last / 8 + 2) (set res 1 (1 + last / 8)))) (u / 8) 0)
      ≡ type_bit u res
unfolding type_bit
block_bit u last res size low =
    ap (bit_at (7 - u % 8)) (
      get_or-drop 2 (u / 8) (take (1 + last / 8 + 2) (set res 1 (1 + last / 8)))
      ∙ get_or-take (1 + last / 8 + 2) (2 + u / 8) (set res 1 (1 + last / 8)))
    ∙ elim (Bool-cases (ltb (2 + u / 8) (1 + last / 8 + 2))) [
      | inl within ↦
          let apart : 1 ≢ 2 + u / 8 = omega arith in
          ground (arith, get_or-set_ne res 1 (2 + u / 8) (1 + last / 8) apart)
      | inr cut ↦
          let more : last < u = ground arith in
          elim (Bool-cases (bit_at (7 - u % 8) (get_or res (2 + u / 8) 0))) [
            | inl present ↦ absurd (let le = low present in omega arith)
            | inr absent ↦ ground (arith, bit_at_zero (7 - u % 8))
          ]
    ]

-- The bitmap of a set is there and is read as the same set.
abbrev pub IsSetOf : List ℕ → Result (List ℕ) → Type 0
IsSetOf types (ok found) = (u : ℕ) → contains u found ≡ contains u types
IsSetOf types (err e) = ⊥

abbrev pub IsReadAs : List ℕ → Option Bytes → Type 0
IsReadAs types none = ⊥
IsReadAs types (some bitmap) = IsSetOf types (read_bitmap bitmap)

empty_read : IsReadAs [] (nsec_bitmap [])
unfolding nsec_bitmap read_bitmap read_bytes
empty_read = λ u. refl

block_read :
    (last : ℕ) (res : Bytes)
    → last < 255
    → length res ≡ 34
    → get_or res 0 0 ≡ 0
    → read_bitmap (take (1 + last / 8 + 2) (set res 1 (1 + last / 8)))
      ≡ ok (read_bytes 0 (drop 2 (take (1 + last / 8 + 2) (set res 1 (1 + last / 8)))) [])
block_read last res low size first =
    let len = 1 + last / 8 in
    let block = set res 1 len in
    let apart : ◌≢◌ {A = ℕ} 1 0 = omega arith in
    let long : length block ≡ 34 = length-set res 1 len ∙ size in
    read_bitmap_block (take (len + 2) block) len (omega arith)
      (length-take (len + 2) block (omega arith))
      (get_or-take (len + 2) 0 block ∙ ground (arith, get_or-set_ne res 1 0 len apart))
      (get_or-take (len + 2) 1 block ∙ ground (arith, get_or-set_self res 1 len))

block_contains :
    (t : ℕ) (types : List ℕ) (u : ℕ)
    → Types 0 (t ∷ types)
    → contains u (
        read_bytes 0
          (drop 2 (
            take
              (1 + last_of t types / 8 + 2)
              (set (mark (t ∷ types) (replicate 34 0)) 1 (1 + last_of t types / 8))))
          [])
      ≡ contains u (t ∷ types)
block_contains t types u h =
    let (marked, size, first) =
      mark_lem 0 u (t ∷ types) (replicate 34 0) h (length-replicate {A = ℕ} 34 0)
        (AreBytes-replicate 34) in
    let (least, low, bound) = last_of_lem 0 t u types h in
    let bits : type_bit u (mark (t ∷ types) (replicate 34 0)) ≡ contains u (t ∷ types) =
      ground (arith, type_bit_zero u) in
    contains-read_all _ u
    ∙ block_bit u (last_of t types) (mark (t ∷ types) (replicate 34 0)) size
        (λ e. bound (sym bits ∙ e))
    ∙ bits

-- For a set of types below 255, given in ascending order, `toPacket` writes a bitmap, and reading
-- it gives the same set: a type is found exactly if it was in the set.
pub read_bitmap-nsec_bitmap : (types : List ℕ) → Types 0 types → IsReadAs types (nsec_bitmap types)
read_bitmap-nsec_bitmap [] h = empty_read
read_bitmap-nsec_bitmap (t ∷ types) h =
    let (marked, size, first) =
      mark_lem 0 0 (t ∷ types) (replicate 34 0) h (length-replicate {A = ℕ} 34 0)
        (AreBytes-replicate 34) in
    let (least, low, bound) = last_of_lem 0 t 0 types h in
    let block = block_read (last_of t types) (mark (t ∷ types) (replicate 34 0)) low size first in
    subst (IsReadAs (t ∷ types)) (sym (nsec_bitmap-some t types h))
      (subst (IsSetOf (t ∷ types)) (sym block) (λ u. block_contains t types u h))

empty_size :
    (bitmap : Bytes) → nsec_bitmap [] ≡ some bitmap → (0 < length bitmap) × (length bitmap ≤ 34)
unfolding nsec_bitmap
empty_size bitmap e =
    let same : 0 ∷ 0 ∷ [] ≡ bitmap = cc in let size = ap length same in (omega arith, omega arith)

pub length-nsec_bitmap :
    (types bitmap : List ℕ)
    → Types 0 types
    → nsec_bitmap types ≡ some bitmap
    → (0 < length bitmap) × (length bitmap ≤ 34)
length-nsec_bitmap [] bitmap h e = empty_size bitmap e
length-nsec_bitmap (t ∷ types) bitmap h e =
    let (marked, size, first) =
      mark_lem 0 0 (t ∷ types) (replicate 34 0) h (length-replicate {A = ℕ} 34 0)
        (AreBytes-replicate 34) in
    let (least, low, bound) = last_of_lem 0 t 0 types h in
    let len = 1 + last_of t types / 8 in
    let block = set (mark (t ∷ types) (replicate 34 0)) 1 len in
    let long : length block ≡ 34 = length-set (mark (t ∷ types) (replicate 34 0)) 1 len ∙ size in
    let exact : length (take (len + 2) block) ≡ len + 2 =
      length-take (len + 2) block (omega arith) in
    let same : take (len + 2) block ≡ bitmap = ground (arith, nsec_bitmap-some t types h) in
    let size' = ap length same in (omega arith, omega arith)
