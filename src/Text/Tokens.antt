-- ===== src/Text/Tokens.antt =====
-- `stringtok` of pdns/pdns/misc.hh, and `labelReverse` of pdns/pdns/misc.cc, which is built on it.
use powerdns_improved_lua.Prelude.{
  ℕ, zero, suc, ◌≤◌, ◌<◌, ◌≡◌, refl, sym, ap, ◌∙◌, Bool, true, not, [], ◌∷◌, ◌++◌, arith, length,
  length-append, length-drop, drop, append-nil, List, if◌then◌else◌,
}
use powerdns_improved_lua.Name.{Bytes}
use native.Mathlib.Decide.{dec_lt}
use powerdns_improved_lua.Text.{drop_while, take_while, stringtok_loop, stringtok, join}

-- The bytes of a text that pass the test.
unfoldable pub keep : (ℕ → Bool) → Bytes → Bytes
keep p [] = []
keep p (c ∷ s) = let rest = keep p s in if p c then c ∷ rest else rest

-- A nonempty run of bytes that all pass the test.
abbrev pub AllPass : (ℕ → Bool) → Bytes → Type 0
AllPass p [] = Unit
AllPass p (c ∷ s) = (p c ≡ true) × AllPass p s

-- Each token is nonempty, and none of its bytes is a delimiter.
abbrev pub AreTokens : (ℕ → Bool) → List Bytes → Type 0
AreTokens delim [] = Unit
AreTokens delim (t ∷ ts) = (0 < length t) × AllPass (λ c. not (delim c)) t × AreTokens delim ts

abbrev pub concat : List Bytes → Bytes
concat [] = []
concat (t ∷ ts) = t ++ concat ts

module _ (p : ℕ → Bool) where
  length-drop_while : (s : Bytes) → length (drop_while p s) ≤ length s
  unfolding drop_while
  length-drop_while [] = omega arith
  length-drop_while (c ∷ s) = ground (arith, length-drop_while s)

  take_while-drop_while : (s : Bytes) → take_while p s ++ drop_while p s ≡ s
  unfolding take_while drop_while
  take_while-drop_while [] = refl
  take_while-drop_while (c ∷ s) = ground (arith, take_while-drop_while s)

  take_while-AllPass : (s : Bytes) → AllPass p (take_while p s)
  unfolding take_while
  take_while-AllPass [] = tt
  take_while-AllPass (c ∷ s) = ground (arith, take_while-AllPass s)

  keep-take_while : (s : Bytes) → take_while p s ++ keep p (drop_while p s) ≡ keep p s
  unfolding take_while drop_while keep
  keep-take_while [] = refl
  keep-take_while (c ∷ s) = ground (arith, keep-take_while s)

  -- What a search stops at fails the test, so the next character may be passed over.
  keep-drop_one : (s : Bytes) → keep p (drop 1 (drop_while p s)) ≡ keep p (drop_while p s)
  unfolding drop_while keep
  keep-drop_one [] = refl
  keep-drop_one (c ∷ s) = ground (arith, keep-drop_one s)

module _ (delim : ℕ → Bool) where
  keep-skip :
      (s : Bytes) → keep (λ c. not (delim c)) (drop_while delim s) ≡ keep (λ c. not (delim c)) s
  unfolding drop_while keep
  keep-skip [] = refl
  keep-skip (c ∷ s) = ground (arith, keep-skip s)

  -- Behind the delimiters a token begins.
  token_nonempty :
      (s : Bytes)
      → 0 < length (drop_while delim s)
      → 0 < length (take_while (λ c. not (delim c)) (drop_while delim s))
  unfolding drop_while take_while
  token_nonempty [] h = absurd (omega arith)
  token_nonempty (c ∷ s) h = ground (arith, token_nonempty s)

  -- The delimiters, the token and what follows it, of one round.
  abbrev rest_of : Bytes → Bytes
  rest_of s = drop_while delim s

  abbrev token_of : Bytes → Bytes
  token_of s = take_while (λ c. not (delim c)) (drop_while delim s)

  abbrev after_of : Bytes → Bytes
  after_of s = drop_while (λ c. not (delim c)) (drop_while delim s)

  loop_done :
      (fuel : ℕ) (s : Bytes) → length (rest_of s) ≡ 0 → stringtok_loop (suc fuel) delim s ≡ []
  unfolding stringtok_loop
  loop_done fuel s h = ground arith

  loop_last :
      (fuel : ℕ) (s : Bytes)
      → 0 < length (rest_of s)
      → length (after_of s) ≡ 0
      → stringtok_loop (suc fuel) delim s ≡ token_of s ∷ []
  unfolding stringtok_loop
  loop_last fuel s h k = ground arith

  loop_more :
      (fuel : ℕ) (s : Bytes)
      → 0 < length (rest_of s)
      → 0 < length (after_of s)
      → stringtok_loop (suc fuel) delim s
        ≡ token_of s ∷ stringtok_loop fuel delim (drop 1 (after_of s))
  unfolding stringtok_loop
  loop_more fuel s h k = ground arith

  nil_of_length : (s : Bytes) → length s ≡ 0 → s ≡ []
  nil_of_length [] h = refl
  nil_of_length (x ∷ xs) h = absurd (omega arith)

  whole_last : (s : Bytes) → length (after_of s) ≡ 0 → token_of s ≡ keep (λ c. not (delim c)) s
  whole_last s h =
      sym (append-nil (token_of s))
      ∙ ap (λ (t : Bytes). token_of s ++ t)
          (sym
            (ap (keep (λ c. not (delim c))) (nil_of_length (after_of s) h) ∙ unfold keep in refl))
      ∙ keep-take_while (λ c. not (delim c)) (rest_of s)
      ∙ keep-skip s

  whole_more :
      (s : Bytes)
      → token_of s ++ keep (λ c. not (delim c)) (drop 1 (after_of s)) ≡ keep (λ c. not (delim c)) s
  whole_more s =
      ap (λ (t : Bytes). token_of s ++ t) (keep-drop_one (λ c. not (delim c)) (rest_of s))
      ∙ keep-take_while (λ c. not (delim c)) (rest_of s)
      ∙ keep-skip s

  stringtok_loop-tokens :
      (fuel : ℕ) (s : Bytes)
      → length s < fuel
      → AreTokens delim (stringtok_loop fuel delim s)
        × (concat (stringtok_loop fuel delim s) ≡ keep (λ c. not (delim c)) s)
  stringtok_loop-tokens zero s h = absurd (omega arith)
  stringtok_loop-tokens (suc fuel) s h = elim (dec_lt 0 (length (rest_of s))) [
    | no p ↦ rw (loop_done fuel s (omega arith)) (
      tt,
      sym (
            ap (keep (λ c. not (delim c))) (nil_of_length (rest_of s) (omega arith))
            ∙ unfold keep in refl)
          ∙ keep-skip s,
    )
    | yes p ↦
        let passes = take_while-AllPass (λ c. not (delim c)) (rest_of s) in
        let full = token_nonempty s p in
        elim (dec_lt 0 (length (after_of s))) [
          | no q ↦
              rw (loop_last fuel s p (omega arith))
                ((full, passes, tt), append-nil (token_of s) ∙ whole_last s (omega arith))
          | yes q ↦
              let shorter : length (drop 1 (after_of s)) < fuel = omega (
                arith,
                length-drop 1 (after_of s),
                length-drop_while (λ c. not (delim c)) (rest_of s),
                length-drop_while delim s,
              ) in
              let (tokens, whole) = stringtok_loop-tokens fuel (drop 1 (after_of s)) shorter in
              rw (loop_more fuel s p q)
                ((full, passes, tokens), ap (λ (t : Bytes). token_of s ++ t) whole ∙ whole_more s)
        ]
  ]

-- The tokens of every text are nonempty and free of delimiters, and together they are the text
-- without its delimiters, in order: the loop's rounds are enough.
pub stringtok-tokens :
    (delim : ℕ → Bool) (s : Bytes)
    → AreTokens delim (stringtok delim s)
      × (concat (stringtok delim s) ≡ keep (λ c. not (delim c)) s)
unfolding stringtok
stringtok-tokens delim s = stringtok_loop-tokens delim (suc (length s)) s (omega arith)

module _ (p : ℕ → Bool) where
  drop_while_run : (l rest : Bytes) → AllPass p l → drop_while p (l ++ rest) ≡ drop_while p rest
  unfolding drop_while
  drop_while_run [] rest h = refl
  drop_while_run (c ∷ l) rest h = ground (arith, drop_while_run l rest)

  take_while_run :
      (l rest : Bytes) → AllPass p l → take_while p (l ++ rest) ≡ l ++ take_while p rest
  unfolding take_while
  take_while_run [] rest h = refl
  take_while_run (c ∷ l) rest h = ground (arith, take_while_run l rest)

module _ (delim : ℕ → Bool) where
  no_delimiters :
      (l rest : Bytes)
      → 0 < length l
      → AllPass (λ c. not (delim c)) l
      → drop_while delim (l ++ rest) ≡ l ++ rest
  unfolding drop_while
  no_delimiters [] rest h k = absurd (omega arith)
  no_delimiters (c ∷ l) rest h k = ground arith

  -- One round on a token, alone or before a delimiter.
  round_last :
      (fuel : ℕ) (l : Bytes)
      → 0 < length l
      → AllPass (λ c. not (delim c)) l
      → stringtok_loop (suc fuel) delim l ≡ l ∷ []
  round_last fuel l h k =
      let same : drop_while delim l ≡ l =
        ap (drop_while delim) (sym (append-nil l)) ∙ no_delimiters l [] h k ∙ append-nil l in
      let run = take_while_run (λ c. not (delim c)) l [] k in
      let past = drop_while_run (λ c. not (delim c)) l [] k in
      unfold stringtok_loop drop_while take_while in ground (arith, append-nil l)

  round_more :
      (fuel : ℕ) (l : Bytes) (sep : ℕ) (rest : Bytes)
      → 0 < length l
      → AllPass (λ c. not (delim c)) l
      → delim sep ≡ true
      → stringtok_loop (suc fuel) delim (l ++ (sep ∷ rest)) ≡ l ∷ stringtok_loop fuel delim rest
  round_more fuel l sep rest h k e =
      let same = no_delimiters l (sep ∷ rest) h k in
      let run = take_while_run (λ c. not (delim c)) l (sep ∷ rest) k in
      let past = drop_while_run (λ c. not (delim c)) l (sep ∷ rest) k in
      let len = length-append l (sep ∷ rest) in
      unfold stringtok_loop drop_while take_while in ground (arith, append-nil l)

  stringtok_loop-join :
      (fuel : ℕ) (sep : ℕ) (ls : List Bytes)
      → delim sep ≡ true
      → AreTokens delim ls
      → length (join sep ls) < fuel
      → stringtok_loop fuel delim (join sep ls) ≡ ls
  stringtok_loop-join zero sep ls e t h = absurd (omega arith)
  stringtok_loop-join (suc fuel) sep [] e t h = unfold join stringtok_loop drop_while in refl
  stringtok_loop-join (suc fuel) sep (l ∷ []) e (full, passes, t) h =
      unfold join in round_last fuel l full passes
  stringtok_loop-join (suc fuel) sep (l ∷ m ∷ ls) e (full, passes, t) h =
      let shorter : length (join sep (m ∷ ls)) < fuel =
        unfold join in omega (arith, length-append l (sep ∷ join sep (m ∷ ls))) in
      let step : stringtok_loop (suc fuel) delim (join sep (l ∷ m ∷ ls))
          ≡ l ∷ stringtok_loop fuel delim (join sep (m ∷ ls)) =
        unfold join in round_more fuel l sep (join sep (m ∷ ls)) full passes e in
      step ∙ ap (◌∷◌ l) (stringtok_loop-join fuel sep (m ∷ ls) e t shorter)

  -- `stringtok` returns the labels that were written with one delimiter between them.
  pub stringtok-join :
      (sep : ℕ) (ls : List Bytes)
      → delim sep ≡ true
      → AreTokens delim ls
      → stringtok delim (join sep ls) ≡ ls
  unfolding stringtok
  stringtok-join sep ls e t =
      stringtok_loop-join (suc (length (join sep ls))) sep ls e t (omega arith)
