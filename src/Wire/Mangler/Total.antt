-- ===== src/Wire/Mangler/Total.antt =====
-- Skipping a name ends: DNSPacketMangler::skipLabel of pdns/pdns/dnsparser.cc.
use powerdns_improved_lua.Prelude.{
  ℕ, zero, suc, ◌+◌, ◌%◌, ◌^◌, ◌≤◌, ◌<◌, ◌≡◌, ◌≢◌, refl, ◌⊎◌, length, leb, ◌==◌, get_or, arith, inl,
  inr, Bool-cases,
}
use powerdns_improved_lua.Name.{Bytes}
use powerdns_improved_lua.Wire.{ok, err, out_of_range, stuck}
use powerdns_improved_lua.Wire.Mangler.{move_offset, get8, skip_label_loop, skip_label}

move_offset-cases :
    (packet : Bytes) (by offset : ℕ)
    → length packet < 2 ^ 31
    → offset ≤ length packet
    → (move_offset packet by offset ≡ err out_of_range)
      ⊎ ((move_offset packet by offset ≡ ok (offset + by % 2 ^ 16))
          × (offset + by % 2 ^ 16 ≤ length packet))
unfolding move_offset
move_offset-cases packet by offset small h = ground arith

get8-cases :
    (packet : Bytes) (offset : ℕ)
    → length packet < 2 ^ 31
    → offset ≤ length packet
    → (get8 packet offset ≡ err out_of_range)
      ⊎ ((get8 packet offset ≡ ok (get_or packet offset 0, offset + 1))
          × (offset + 1 ≤ length packet))
unfolding get8
get8-cases packet offset small h = elim (move_offset-cases packet 1 offset small h) [
  | inl failed ↦ inl (rw failed refl)
  | inr (moved, within) ↦ inr (rw moved refl, omega arith)
]

skip_label_loop_total :
    (fuel : ℕ) (packet : Bytes) (offset : ℕ)
    → length packet < 2 ^ 31
    → offset ≤ length packet
    → length packet < fuel + offset
    → skip_label_loop fuel packet offset ≢ err stuck
unfolding skip_label_loop
skip_label_loop_total zero packet offset small h enough = absurd (omega arith)
skip_label_loop_total (suc fuel) packet offset small h enough =
    elim (get8-cases packet offset small h) [
      | inl failed ↦ rw failed (λ e. cc)
      | inr (read, within) ↦ rw read (elim (Bool-cases (get_or packet offset 0 == 0)) [
        | inl done ↦ rw done (λ e. cc)
        | inr more ↦ rw more (elim (Bool-cases (leb 192 (get_or packet offset 0))) [
          | inl pointer ↦ rw pointer (elim (get8-cases packet (offset + 1) small within) [
            | inl failed ↦ rw failed (λ e. cc)
            | inr (again, _) ↦ rw again (λ e. cc)
          ])
          | inr label ↦
              rw label
                (elim (move_offset-cases packet (get_or packet offset 0) (offset + 1) small
                  within) [
                    | inl failed ↦ rw failed (λ e. cc)
                    | inr (moved, inside) ↦ rw moved (
                        skip_label_loop_total fuel packet
                          (offset + 1 + get_or packet offset 0 % 2 ^ 16) small inside (omega arith))
                  ])
        ])
      ])
    ]

-- In a packet below 2 ^ 31 bytes, and from every position in it, skipping a name ends: the rounds
-- that the model allows are enough.
pub skip_label_total :
    (packet : Bytes) (offset : ℕ)
    → length packet < 2 ^ 31
    → offset ≤ length packet
    → skip_label packet offset ≢ err stuck
unfolding skip_label
skip_label_total packet offset small h =
    skip_label_loop_total (suc (length packet)) packet offset small h (omega arith)
