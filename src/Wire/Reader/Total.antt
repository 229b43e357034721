-- ===== src/Wire/Reader/Total.antt =====
-- Reading a name ends on every packet, and stays within it.
use powerdns_improved_lua.Prelude.{
  ℕ, zero, suc, ◌+◌, ◌-◌, ◌*◌, ◌%◌, ◌^◌, ◌<◌, ◌≤◌, ◌≡◌, ◌≢◌, refl, ◌⊎◌, inl, inr, List, [], ◌∷◌,
  ◌++◌, length, leb, ◌==◌, arith, ap, Bool-cases,
}
use powerdns_improved_lua.Name.{Bytes}
use powerdns_improved_lua.Wire.{Result, ok, err, out_of_range, moad, length_error, stuck, ◌>>=◌, at}
use powerdns_improved_lua.Wire.Reader.{
  next16, escaped, label_bytes, read_pointer, label_loop, get_label_from_content, get_label,
}

-- A byte is read below the end, and `at` throws everywhere else.
pub at-cases {ℓ} :
    {A : Type ℓ} (xs : List A) (i : ℕ)
    → ((v : A) × (at xs i ≡ ok v) × (i < length xs))
      ⊎ ((at xs i ≡ err out_of_range) × (length xs ≤ i))
unfolding at
at-cases [] i = inr (refl, omega arith)
at-cases (x ∷ xs) zero = inl (x, refl, omega arith)
at-cases (x ∷ xs) (suc i) = elim (at-cases xs i) [
  | inl (v, e, h) ↦ inl (v, e, omega arith)
  | inr (e, h) ↦ inr (e, omega arith)
]

-- A result that is an exception of the program, or a position behind `pos` and in the packet.
abbrev pub InPacket : Bytes → ℕ → Result (Bytes × ℕ) → Type 0
InPacket content pos (ok (_, pos')) = (pos < pos') × (pos' ≤ length content)
InPacket content pos (err e) = e ≢ stuck

next16_small :
    (content : Bytes) (pos : ℕ)
    → length content < 2 ^ 16
    → pos < length content
    → next16 pos ≡ pos + 1
next16_small content pos h k = omega arith

label_bytes_in :
    (n : ℕ) (content : Bytes) (pos : ℕ) (ret : Bytes)
    → length content < 2 ^ 16
    → pos ≤ length content
    → ((r : Bytes) × (label_bytes n content pos ret ≡ ok (r, pos + n)) × (pos + n ≤ length content))
      ⊎ (label_bytes n content pos ret ≡ err out_of_range)
unfolding label_bytes
label_bytes_in zero content pos ret h k = inl (ret, ground arith, omega arith)
label_bytes_in (suc n) content pos ret h k = elim (at-cases content pos) [
  | inr (e, _) ↦ inr (rw e)
  | inl (c, e, lt) ↦ elim (label_bytes_in n content (pos + 1) (ret ++ escaped c) h (omega arith)) [
    | inl (r, done, le) ↦ inl (
      r,
      rw (e, next16_small content pos h lt, done) (ap (λ (k : ℕ). ok (r, k)) (omega arith)),
      omega arith,
    )
    | inr out ↦ inr (rw (e, next16_small content pos h lt) out)
  ]
]

-- The position behind a pointer's two bytes.
read_pointer_in :
    (follow : ℕ → Bytes → Result (Bytes × ℕ)) (content : Bytes) (labellen pos : ℕ) (ret : Bytes)
    → ((o : ℕ) (r : Bytes) → follow o r ≢ err stuck)
    → length content < 2 ^ 16
    → pos < length content
    → InPacket content pos (read_pointer follow content labellen pos ret)
unfolding read_pointer
read_pointer_in follow content labellen pos ret safe h k =
    rw (next16_small content pos h k) (elim (at-cases content (pos + 1)) [
      | inr (e, _) ↦ rw e (λ p. cc)
      | inl (low, e, lt) ↦
          rw (e, next16_small content (pos + 1) h lt)
            (after (follow ((256 * (labellen % 64) + low + 2 ^ 16 - 12) % 2 ^ 16) ret)
              (safe ((256 * (labellen % 64) + low + 2 ^ 16 - 12) % 2 ^ 16) ret) lt)
    ])
  where
    after :
        (r : Result (Bytes × ℕ))
        → r ≢ err stuck
        → pos + 1 < length content
        → InPacket content pos (r >>= λ (whole, _). ok (whole, pos + 1 + 1))
    after (ok (whole, q)) h lt = omega arith
    after (err e) h lt = λ p. h (ap err p)

InPacket-later :
    (content : Bytes) (p q : ℕ) (r : Result (Bytes × ℕ))
    → p ≤ q
    → InPacket content q r
    → InPacket content p r
InPacket-later content p q (ok (x, s)) h k = omega arith
InPacket-later content p q (err e) h k = k

label_loop_in :
    (follow : ℕ → Bytes → Result (Bytes × ℕ)) (fuel : ℕ) (content : Bytes) (pos : ℕ) (ret : Bytes)
    → ((o : ℕ) (r : Bytes) → follow o r ≢ err stuck)
    → length content < 2 ^ 16
    → length content < fuel + pos
    → 0 < fuel
    → InPacket content pos (label_loop follow fuel content pos ret)
unfolding label_loop
label_loop_in follow zero content pos ret safe h f z = absurd (omega arith)
label_loop_in follow (suc fuel) content pos ret safe h f z = elim (at-cases content pos) [
  | inr (e, _) ↦ rw e (λ p. cc)
  | inl (labellen, e, lt) ↦
      rw (e, next16_small content pos h lt)
        (elim (Bool-cases (labellen == 0)) [
          | inl done ↦ rw done (omega arith)
          | inr more ↦ rw more (elim (Bool-cases (leb 192 labellen)) [
            | inl pointer ↦ rw pointer (read_pointer_in follow content labellen pos ret safe h lt)
            | inr label ↦
                rw label (elim (label_bytes_in labellen content (pos + 1) ret h (omega arith)) [
                  | inr out ↦ rw out (λ p. cc)
                  | inl (r, done, le) ↦ rw done (
                      InPacket-later content pos (pos + 1 + labellen) _ (omega arith) (
                        label_loop_in follow fuel content (pos + 1 + labellen) (r ++ (b'.' ∷ []))
                          safe h (omega arith) (ground arith)))
                ])
          ])
        ])
]

InPacket-ne-stuck :
    (content : Bytes) (pos : ℕ) (x : Result (Bytes × ℕ)) → InPacket content pos x → x ≢ err stuck
InPacket-ne-stuck content pos (ok y) k = λ e. cc
InPacket-ne-stuck content pos (err out_of_range) k = λ e. cc
InPacket-ne-stuck content pos (err length_error) k = λ e. cc
InPacket-ne-stuck content pos (err moad) k = λ e. cc
InPacket-ne-stuck content pos (err stuck) k = λ e. k refl

get_label_from_content_in :
    (levels : ℕ) (content : Bytes) (pos : ℕ) (ret : Bytes)
    → length content < 2 ^ 16
    → InPacket content pos (get_label_from_content levels content pos ret)
unfolding get_label_from_content
get_label_from_content_in zero content pos ret h = λ p. cc
get_label_from_content_in (suc levels) content pos ret h =
    label_loop_in (get_label_from_content levels content) (suc (length content)) content pos ret
      (λ o r.
        InPacket-ne-stuck content o (get_label_from_content levels content o r)
          (get_label_from_content_in levels content o r h))
      h (omega arith) (omega arith)

-- On every packet that fits a uint16_t, and from every position, reading a name ends: it throws one
-- of the program's two exceptions, or leaves the position behind the name and within the packet.
-- Pointers that form a cycle are no exception to this.
pub get_label_in :
    (content : Bytes) (pos : ℕ)
    → length content < 2 ^ 16
    → InPacket content pos (get_label content pos)
unfolding get_label
get_label_in content pos h = get_label_from_content_in 11 content pos [] h
