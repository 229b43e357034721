-- ===== src/Wire/Mangler/Aging.antt =====
-- What ageing does to any packet: pdns/pdns/dnsparser.cc.
use powerdns_improved_lua.Prelude.{
  ℕ, zero, suc, ◌+◌, ◌-◌, ◌%◌, ◌^◌, ◌≤◌, ◌<◌, ◌≡◌, refl, ap, [], ◌∷◌, ◌++◌, length, length-append,
  leb, ltb, ◌==◌, take, drop, arith, ◌⊎◌, inl, inr, Bool-cases,
}
use powerdns_improved_lua.Name.{Bytes}
use powerdns_improved_lua.Wire.{Failure, Result, ok, err, ◌>>=◌, >>=-eq-ok}
use powerdns_improved_lua.Wire.Numbers.{bytes32}
use powerdns_improved_lua.Wire.Mangler.{
  move_offset, get8, get16, skip_label_loop, skip_label, skip_rdata, read32, decrease_and_skip,
  skip_questions, record_start, age_records, header_count, age_dns_packet,
}

length-take : (n : ℕ) (xs : Bytes) → n ≤ length xs → length (take n xs) ≡ n
length-take zero xs h = refl
length-take (suc n) [] h = absurd (omega arith)
length-take (suc n) (x ∷ xs) h = ap suc (length-take n xs (omega arith))

length-drop : (n : ℕ) (xs : Bytes) → length (drop n xs) ≡ length xs - n
length-drop zero xs = omega arith
length-drop (suc n) [] = omega arith
length-drop (suc n) (x ∷ xs) = omega (arith, length-drop n xs)

take-take-append :
    (n m : ℕ) (xs ys : Bytes) → n ≤ m → m ≤ length xs → take n (take m xs ++ ys) ≡ take n xs
take-take-append zero m xs ys h k = refl
take-take-append (suc n) zero xs ys h k = absurd (omega arith)
take-take-append (suc n) (suc m) [] ys h k = absurd (omega arith)
take-take-append (suc n) (suc m) (x ∷ xs) ys h k =
    ap (◌∷◌ x) (take-take-append n m xs ys (omega arith) (omega arith))

-- The offset moves forward, and stays in the packet.
move_offset-ok :
    (packet : Bytes) (by offset offset' : ℕ)
    → length packet < 2 ^ 31
    → offset ≤ length packet
    → move_offset packet by offset ≡ ok offset'
    → (offset' ≡ offset + by % 2 ^ 16) × (offset' ≤ length packet)
unfolding move_offset
move_offset-ok packet by offset offset' small h e = ground arith

-- A packet with the same length and the same header: what can follow from it on a change.
abbrev pub Alike : Bytes → Bytes → Type 0
Alike packet packet' = (length packet' ≡ length packet) × (take 12 packet' ≡ take 12 packet)

length-bytes32 : (value : ℕ) (rest : Bytes) → length (bytes32 value ++ rest) ≡ 4 + length rest
unfolding bytes32
length-bytes32 value rest = omega arith

replaced-Alike :
    (offset value : ℕ) (packet : Bytes)
    → 12 ≤ offset
    → offset + 4 ≤ length packet
    → Alike packet (take offset packet ++ (bytes32 value ++ drop (offset + 4) packet))
replaced-Alike offset value packet h k = (
  omega (
    arith,
    length-append (take offset packet) (bytes32 value ++ drop (offset + 4) packet),
    length-take offset packet (omega arith),
    length-drop (offset + 4) packet,
    length-bytes32 value (drop (offset + 4) packet),
  ),
  take-take-append 12 offset packet (bytes32 value ++ drop (offset + 4) packet) h (omega arith),
)

decrease_and_skip-Alike :
    (decrease offset behind : ℕ) (packet packet' : Bytes)
    → length packet < 2 ^ 31
    → 12 ≤ offset
    → offset ≤ length packet
    → decrease_and_skip decrease packet offset ≡ ok (packet', behind)
    → Alike packet packet' × (behind ≡ offset + 4) × (behind ≤ length packet)
unfolding decrease_and_skip
decrease_and_skip-Alike decrease offset behind packet packet' small h k e =
    let lower = (read32 packet offset + 2 ^ 32 - decrease % 2 ^ 32) % 2 ^ 32 in
    let (moved, step, rest) = >>=-eq-ok (move_offset packet 4 offset) _ e in
    let (four, within) = move_offset-ok packet 4 offset moved small k step in
    let exact : moved - 4 ≡ offset = omega arith in
    let alike = replaced-Alike offset lower packet h (omega arith) in
    let place : moved ≡ offset + 4 = omega arith in
    let result : ok (take offset packet ++ (bytes32 lower ++ drop (offset + 4) packet), offset + 4)
        ≡ ok (packet', behind) =
      rw (exact, place) at rest in
    ground arith

get16-ok :
    (packet : Bytes) (offset v behind : ℕ)
    → length packet < 2 ^ 31
    → offset ≤ length packet
    → get16 packet offset ≡ ok (v, behind)
    → (offset ≤ behind) × (behind ≤ length packet)
unfolding get16
get16-ok packet offset v behind small h e =
    let (moved, step, rest) = >>=-eq-ok (move_offset packet 2 offset) _ e in
    let fact = move_offset-ok packet 2 offset moved small h step in ground arith

get8-ok :
    (packet : Bytes) (offset v behind : ℕ)
    → length packet < 2 ^ 31
    → offset ≤ length packet
    → get8 packet offset ≡ ok (v, behind)
    → (offset ≤ behind) × (behind ≤ length packet)
unfolding get8
get8-ok packet offset v behind small h e =
    let (moved, step, rest) = >>=-eq-ok (move_offset packet 1 offset) _ e in
    let fact = move_offset-ok packet 1 offset moved small h step in ground arith

skip_label_loop-ok :
    (fuel : ℕ) (packet : Bytes) (offset behind : ℕ)
    → length packet < 2 ^ 31
    → offset ≤ length packet
    → skip_label_loop fuel packet offset ≡ ok behind
    → (offset ≤ behind) × (behind ≤ length packet)
unfolding skip_label_loop
skip_label_loop-ok zero packet offset behind small h e = cc
skip_label_loop-ok (suc fuel) packet offset behind small h e =
    let ((len, one), read, rest) = >>=-eq-ok (get8 packet offset) _ e in
    let (low, high) = get8-ok packet offset len one small h read in
    elim (Bool-cases (len == 0)) [
      | inl done ↦ let here : ok one ≡ ok behind = rw done at rest in ground arith
      | inr more ↦ elim (Bool-cases (leb 192 len)) [
        | inl pointer ↦
            let second : (get8 packet one >>= λ x. ok x.1) ≡ ok behind =
              rw (more, pointer) at rest in
            let ((c, two), again, end) = >>=-eq-ok (get8 packet one) _ second in
            let fact = get8-ok packet one c two small high again in ground arith
        | inr label ↦
            let second : (move_offset packet len one >>= skip_label_loop fuel packet) ≡ ok behind =
              rw (more, label) at rest in
            let (next, step, later) = >>=-eq-ok (move_offset packet len one) _ second in
            let (forward, within) = move_offset-ok packet len one next small high step in
            let fact = skip_label_loop-ok fuel packet next behind small within later in omega arith
      ]
    ]

skip_label-ok :
    (packet : Bytes) (offset behind : ℕ)
    → length packet < 2 ^ 31
    → offset ≤ length packet
    → skip_label packet offset ≡ ok behind
    → (offset ≤ behind) × (behind ≤ length packet)
unfolding skip_label
skip_label-ok packet offset behind small h e =
    skip_label_loop-ok (suc (length packet)) packet offset behind small h e

skip_questions-ok :
    (n : ℕ) (packet : Bytes) (offset behind : ℕ)
    → length packet < 2 ^ 31
    → offset ≤ length packet
    → skip_questions n packet offset ≡ ok behind
    → (offset ≤ behind) × (behind ≤ length packet)
unfolding skip_questions
skip_questions-ok zero packet offset behind small h e = ground arith
skip_questions-ok (suc n) packet offset behind small h e =
    let (named, skipped, rest) = >>=-eq-ok (skip_label packet offset) _ e in
    let (low, high) = skip_label-ok packet offset named small h skipped in
    let (next, step, later) = >>=-eq-ok (move_offset packet 4 named) _ rest in
    let (forward, within) = move_offset-ok packet 4 named next small high step in
    let fact = skip_questions-ok n packet next behind small within later in omega arith

record_start-ok :
    (packet : Bytes) (offset v behind : ℕ)
    → length packet < 2 ^ 31
    → offset ≤ length packet
    → record_start packet offset ≡ ok (v, behind)
    → (offset ≤ behind) × (behind ≤ length packet)
unfolding record_start
record_start-ok packet offset v behind small h e =
    let (named, skipped, rest) = >>=-eq-ok (skip_label packet offset) _ e in
    let (low, high) = skip_label-ok packet offset named small h skipped in
    let ((ty, typed), first, rest') = >>=-eq-ok (get16 packet named) _ rest in
    let (low', high') = get16-ok packet named ty typed small high first in
    let ((cl, classed), second, end) = >>=-eq-ok (get16 packet typed) _ rest' in
    let (low'', high'') = get16-ok packet typed cl classed small high' second in ground arith

skip_rdata-ok :
    (packet : Bytes) (offset behind : ℕ)
    → length packet < 2 ^ 31
    → offset ≤ length packet
    → skip_rdata packet offset ≡ ok behind
    → (offset ≤ behind) × (behind ≤ length packet)
unfolding skip_rdata
skip_rdata-ok packet offset behind small h e =
    let ((n, sized), first, rest) = >>=-eq-ok (get16 packet offset) _ e in
    let (low, high) = get16-ok packet offset n sized small h first in
    let (forward, within) = move_offset-ok packet n sized behind small high rest in omega arith

Result-cases : {A : Type 0} (r : Result A) → ((a : A) × (r ≡ ok a)) ⊎ ((e : Failure) × (r ≡ err e))
Result-cases (ok a) = inl (a, refl)
Result-cases (err e) = inr (e, refl)

age_records-Alike :
    (seconds n : ℕ) (packet : Bytes) (offset : ℕ)
    → length packet < 2 ^ 31
    → 12 ≤ offset
    → offset ≤ length packet
    → Alike packet (age_records seconds n packet offset)
unfolding age_records
age_records-Alike seconds zero packet offset small low high = (refl, refl)
age_records-Alike seconds (suc n) packet offset small low high =
    elim (Result-cases (record_start packet offset)) [
      | inr (e, failed) ↦ ground arith
      | inl ((ty, at_ttl), started) ↦
          let (a, b) = record_start-ok packet offset ty at_ttl small high started in
          elim (Bool-cases (ty == 41)) [
            | inl opt ↦ ground arith
            | inr other ↦ elim (Result-cases (decrease_and_skip seconds packet at_ttl)) [
              | inr (e, failed) ↦ ground arith
              | inl ((packet', at_rdata), lowered) ↦
                  let (alike, place, within) =
                    decrease_and_skip-Alike seconds at_ttl at_rdata packet packet' small
                      (omega arith) b lowered in
                  let small' : length packet' < 2 ^ 31 = omega arith in
                  elim (Result-cases (skip_rdata packet' at_rdata)) [
                    | inr (e, failed) ↦ ground arith
                    | inl (behind, skipped) ↦
                        let (c, d) =
                          skip_rdata-ok packet' at_rdata behind small' (omega arith) skipped in
                        let later =
                          age_records-Alike seconds n packet' behind small' (omega arith) d in
                        ground arith
                  ]
            ]
          ]
    ]

-- Whatever the packet holds, ageing it changes neither its length nor its header.
pub age_dns_packet-Alike :
    (seconds : ℕ) (packet : Bytes)
    → length packet < 2 ^ 31
    → Alike packet (age_dns_packet seconds packet)
unfolding age_dns_packet
age_dns_packet-Alike seconds packet small = elim (Bool-cases (ltb (length packet) 12)) [
  | inl short ↦ rw short (refl, refl)
  | inr long ↦ elim (Result-cases (skip_questions (header_count packet 4) packet 12)) [
    | inr (e, failed) ↦ rw (long, failed) (refl, refl)
    | inl (offset, skipped) ↦
        let twelve : 12 ≤ length packet = ground arith in
        let (low, high) =
          skip_questions-ok (header_count packet 4) packet 12 offset small twelve skipped in
        rw (long, skipped) (age_records-Alike seconds _ packet offset small low high)
  ]
]
