-- ===== src/Throttle/Blocks.antt =====
-- How long `Throttle` of pdns/pdns/syncres.hh blocks, and that one thing does not touch another.
use powerdns_improved_lua.Prelude.{
  ℕ, suc, zero, ◌+◌, ◌≤◌, ◌≡◌, ◌≢◌, refl, ap, ◌∙◌, Bool, true, false, List, [], ◌∷◌, ◌++◌, none,
  some, arith, Option-cases, Bool-cases, ltb, leb, ◌%◌, ◌^◌, ◌<◌, sym, inl, inr, replicate,
  if◌then◌else◌, ◌==◌,
}
use powerdns_improved_lua.Prelude.Int.{ℤ, pos, negsuc, ◌-ℤ◌, to_int32}
use powerdns_improved_lua.Throttle.{Entry, Throttle, find, tidy, should_throttle, throttle}
use powerdns_improved_lua.Throttle.Map.{
  find-assign_self, find-assign_ne, find-erase_self, find-erase_ne, find-clean, find-clean-none,
}

-- How often a count is found at 0 or above before it is below.
abbrev rounds : ℤ → ℕ
rounds (pos k) = suc k
rounds (negsuc n) = 0

rounds-to_int32 : (n : ℕ) → n < 2 ^ 32 → rounds (to_int32 n) ≡ (if ltb n (2 ^ 31) then suc n else 0)
unfolding to_int32
rounds-to_int32 n h =
    let same : n % 2 ^ 32 ≡ n = omega arith in
    elim (Bool-cases (ltb n (2 ^ 31))) [
      | inl low ↦ rw (same, low)
      | inr high ↦ let below : leb (2 ^ 32) n ≡ false = ground arith in rw (same, high, below)
    ]

module _ {Thing : Type 0} (dec : Discrete Thing) (now : ℕ) (t : Thing) where
  tidy-find :
      (th : Throttle Thing) (e : Entry)
      → find dec t th.cont ≡ some e
      → now ≤ e.ttd
      → find dec t (tidy dec now th).cont ≡ some e
  unfolding tidy
  tidy-find th e h k = ground (arith, find-clean dec t now e th.cont h k)

  blocked :
      (th : Throttle Thing) (ttd k : ℕ)
      → find dec t th.cont ≡ some (record { ttd = ttd; count = pos k })
      → now ≤ ttd
      → ((should_throttle dec now t th).0 ≡ true)
        × (find dec t (should_throttle dec now t th).1.cont
            ≡ some (record { ttd = ttd; count = pos k -ℤ pos 1 }))
  unfolding should_throttle
  blocked th ttd k h fresh =
      let e : Entry = record { ttd = ttd; count = pos k } in
      ground (
        arith,
        tidy-find th e h fresh,
        find-assign_self dec t (record { ttd = ttd; count = pos k -ℤ pos 1 })
            (tidy dec now th).cont,
      )

  released :
      (th : Throttle Thing) (ttd n : ℕ)
      → find dec t th.cont ≡ some (record { ttd = ttd; count = negsuc n })
      → now ≤ ttd
      → ((should_throttle dec now t th).0 ≡ true)
        × (find dec t (should_throttle dec now t th).1.cont ≡ none)
  unfolding should_throttle
  released th ttd n h fresh =
      let e : Entry = record { ttd = ttd; count = negsuc n } in
      ground (arith, tidy-find th e h fresh, find-erase_self dec t (tidy dec now th).cont)

  tidy-find-none :
      (th : Throttle Thing) → find dec t th.cont ≡ none → find dec t (tidy dec now th).cont ≡ none
  unfolding tidy
  tidy-find-none th h = ground (arith, find-clean-none dec t now th.cont h)

  free :
      (th : Throttle Thing) → find dec t th.cont ≡ none → (should_throttle dec now t th).0 ≡ false
  unfolding should_throttle
  free th h = ground (arith, tidy-find-none th h)

  -- The answers of `shouldThrottle` when it is asked again and again at the same time.
  unfoldable pub ask : ℕ → Throttle Thing → List Bool
  ask zero th = []
  ask (suc n) th = let (answer, th') = should_throttle dec now t th in answer ∷ ask n th'

  ask-suc :
      (n : ℕ) (th : Throttle Thing) {b : Bool}
      → (should_throttle dec now t th).0 ≡ b
      → ask (suc n) th ≡ b ∷ ask n (should_throttle dec now t th).1
  unfolding ask
  ask-suc n th h = ap (λ (c : Bool). c ∷ ask n (should_throttle dec now t th).1) h

  ask_released :
      (th : Throttle Thing) (ttd n : ℕ)
      → find dec t th.cont ≡ some (record { ttd = ttd; count = negsuc n })
      → now ≤ ttd
      → ask 2 th ≡ true ∷ false ∷ []
  ask_released th ttd n h fresh =
      let (yes_first, gone) = released th ttd n h fresh in
      let th' = (should_throttle dec now t th).1 in
      ask-suc 1 th yes_first ∙ ap (◌∷◌ true) (ask-suc 0 th' (free th' gone) ∙ unfold ask in refl)

  ask_blocked :
      (k : ℕ) (th : Throttle Thing) (ttd : ℕ)
      → find dec t th.cont ≡ some (record { ttd = ttd; count = pos k })
      → now ≤ ttd
      → ask (suc (suc (suc k))) th ≡ replicate (suc k) true ++ (true ∷ false ∷ [])
  ask_blocked zero th ttd h fresh =
      let (first, next) = blocked th ttd 0 h fresh in
      let th' = (should_throttle dec now t th).1 in
      let below : find dec t th'.cont ≡ some (record { ttd = ttd; count = negsuc 0 }) =
        unfold ◌-ℤ◌ in next in
      ask-suc 2 th first ∙ ap (◌∷◌ true) (ask_released th' ttd 0 below fresh)
  ask_blocked (suc k) th ttd h fresh =
      let (first, next) = blocked th ttd (suc k) h fresh in
      let th' = (should_throttle dec now t th).1 in
      let lower : pos (suc k) -ℤ pos 1 ≡ pos k = unfold ◌-ℤ◌ in ground arith in
      let below : find dec t th'.cont ≡ some (record { ttd = ttd; count = pos k }) =
        rw lower at next in
      ask-suc (suc (suc (suc k))) th first ∙ ap (◌∷◌ true) (ask_blocked k th' ttd below fresh)

  throttle_new :
      (start ttl tries : ℕ) (th : Throttle Thing)
      → find dec t th.cont ≡ none
      → find dec t (throttle dec start t ttl tries th).cont
        ≡ some (record {
          ttd = start + (if ttl == 0 then th.ttl else ttl);
          count = to_int32 (if tries == 0 then th.limit else tries);
        })
  unfolding throttle
  throttle_new start ttl tries th h =
      let e : Entry = record {
        ttd = start + (if ttl == 0 then th.ttl else ttl);
        count = to_int32 (if tries == 0 then th.limit else tries);
      } in
      ground (arith, find-assign_self dec t e th.cont)

  ask_count :
      (th : Throttle Thing) (ttd : ℕ) (z : ℤ)
      → find dec t th.cont ≡ some (record { ttd = ttd; count = z })
      → now ≤ ttd
      → ask (suc (suc (rounds z))) th ≡ replicate (rounds z) true ++ (true ∷ false ∷ [])
  ask_count th ttd (pos k) h fresh = ask_blocked k th ttd h fresh
  ask_count th ttd (negsuc n) h fresh = ask_released th ttd n h fresh

  -- A thing that was not listed is blocked by `throttle` for a fixed number of questions. Asked
  -- before its time is up, `shouldThrottle` answers yes two times more than the number of tries says
  -- (the limit where none is given), and then no; where that number is no int but 2 ^ 31 or more, it
  -- answers yes once, and then no.
  pub throttle_blocks :
      (start ttl tries : ℕ) (th : Throttle Thing)
      → find dec t th.cont ≡ none
      → now ≤ start + (if ttl == 0 then th.ttl else ttl)
      → tries < 2 ^ 32
      → th.limit < 2 ^ 31
      → (let given = if tries == 0 then th.limit else tries in
          let more = if ltb given (2 ^ 31) then suc given else 0 in
          ask (suc (suc more)) (throttle dec start t ttl tries th)
          ≡ replicate more true ++ (true ∷ false ∷ []))
  throttle_blocks start ttl tries th h fresh small limited =
      let given = if tries == 0 then th.limit else tries in
      let count : rounds (to_int32 given) ≡ (if ltb given (2 ^ 31) then suc given else 0) =
        rounds-to_int32 given (ground arith) in
      ap (λ m. ask (suc (suc m)) (throttle dec start t ttl tries th)) (sym count)
      ∙ ask_count (throttle dec start t ttl tries th) (start + (if ttl == 0 then th.ttl else ttl))
          (to_int32 given) (throttle_new start ttl tries th h) fresh
      ∙ ap (λ m. replicate m true ++ (true ∷ false ∷ [])) count

  stored_other :
      (q : Thing) (ttl tries : ℕ) (th : Throttle Thing)
      → q ≢ t
      → find dec q (throttle dec now t ttl tries th).cont ≡ find dec q th.cont
  unfolding throttle
  stored_other q ttl tries th h =
      let e : Entry = record {
        ttd = now + (if ttl == 0 then th.ttl else ttl);
        count = to_int32 (if tries == 0 then th.limit else tries);
      } in
      let kept = find-assign_ne dec t q e th.cont h in ground (arith, kept)

  asked_other :
      (q : Thing) (th : Throttle Thing)
      → q ≢ t
      → find dec q (should_throttle dec now t th).1.cont ≡ find dec q (tidy dec now th).cont
  unfolding should_throttle
  asked_other q th h = elim (Option-cases (find dec t (tidy dec now th).cont)) [
    | inl absent ↦ ground arith
    | inr (e, found) ↦ ground (
      arith,
      find-erase_ne dec t q (tidy dec now th).cont h,
      find-assign_ne dec t q (record e { count = e.count -ℤ pos 1 }) (tidy dec now th).cont h,
    )
  ]

  -- Neither method touches another thing: `throttle` leaves its entry, and `shouldThrottle` leaves
  -- what the cleaning leaves.
  pub throttle_other :
      (q : Thing) (ttl tries : ℕ) (th : Throttle Thing)
      → q ≢ t
      → (find dec q (throttle dec now t ttl tries th).cont ≡ find dec q th.cont)
        × (find dec q (should_throttle dec now t th).1.cont ≡ find dec q (tidy dec now th).cont)
  throttle_other q ttl tries th h = (stored_other q ttl tries th h, asked_other q th h)
