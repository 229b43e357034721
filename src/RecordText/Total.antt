-- ===== src/RecordText/Total.antt =====
-- The loop of `xfrText` in pdns/pdns/rcpgenerator.cc ends.
use mathlib.Core.Path.{subst}
use powerdns_improved_lua.Prelude.{
  ℕ, zero, suc, ◌<◌, ◌≤◌, ◌≡◌, ◌≢◌, ◌⊎◌, refl, ap, inl, inr, Bool, true, false, [], ◌∷◌, ◌++◌,
  length, ◌==◌, if◌then◌else◌, arith, Option-cases, Option, none, some,
}
use powerdns_improved_lua.Name.{Bytes}
use powerdns_improved_lua.Text.{drop_while}
use powerdns_improved_lua.RecordText.{Parsed, parsed, failed, ◌>>=◌, stuck, is_space}
use powerdns_improved_lua.RecordText.Reader.{RecordTextReader, quoted, text_loop}
use powerdns_improved_lua.RecordText.Reader as Reader

-- What is left behind a text in quotes is shorter.
IsShorter : ℕ → Option (Bytes × Bytes) → Type 0
IsShorter n none = Unit
IsShorter n (some (body, left)) = length left < n

quoted-IsShorter : (s : Bytes) → IsShorter (length s) (quoted s)
unfolding quoted IsShorter
quoted-IsShorter [] = tt
quoted-IsShorter (c ∷ []) = one (c == 34)
  where
    one : (b : Bool) → IsShorter (suc zero) (if b then some ([], []) else none)
    one true = omega arith
    one false = tt
quoted-IsShorter (c ∷ d ∷ rest) =
    both (c == 34) (c == b'\\') (quoted (d ∷ rest)) (quoted rest) (quoted-IsShorter (d ∷ rest))
      (quoted-IsShorter rest)
  where
    both :
        (q e : Bool) (plain escaped : Option (Bytes × Bytes))
        → IsShorter (suc (length rest)) plain
        → IsShorter (length rest) escaped
        → IsShorter (suc (suc (length rest))) (
            if q
            then some ([], d ∷ rest)
            else if e
            then elim escaped [ none ↦ none | some (body, left) ↦ some (c ∷ d ∷ body, left) ]
            else elim plain [ none ↦ none | some (body, left) ↦ some (c ∷ body, left) ])
    both true e plain escaped h k = omega arith
    both false true plain none h k = tt
    both false true plain (some x) h k = omega arith
    both false false none escaped h k = tt
    both false false (some x) escaped h k = omega arith

length-drop_while : (p : ℕ → Bool) (s : Bytes) → length (drop_while p s) ≤ length s
unfolding drop_while
length-drop_while p [] = omega arith
length-drop_while p (c ∷ s) = ground (arith, length-drop_while p s)

shorter :
    (body : Bytes) (found : Bytes × Bytes) → quoted body ≡ some found → length found.1 < length body
unfolding IsShorter
shorter body found h = subst (IsShorter (length body)) h (quoted-IsShorter body)

List-cases : (xs : Bytes) → (xs ≡ []) ⊎ ((x : ℕ) × (s : Bytes) × (xs ≡ x ∷ s))
List-cases [] = inl refl
List-cases (x ∷ s) = inr (x, s, refl)

text_loop_total :
    (fuel : ℕ) (multi : Bool) (rest val : Bytes)
    → length rest ≤ fuel
    → text_loop fuel multi rest val ≢ failed stuck
unfolding text_loop
text_loop_total zero multi [] val low = λ e. cc
text_loop_total zero multi (c ∷ rest) val low = absurd (omega arith)
text_loop_total (suc fuel) multi [] val low = λ e. cc
text_loop_total (suc fuel) multi (c ∷ rest) val low = λ e.
    (elim (List-cases (drop_while is_space (c ∷ rest))) [
      | inl none_left ↦ ground (arith, none_left)
      | inr (q, body, split) ↦
          let short = length-drop_while is_space (c ∷ rest) in
          let size = ap length split in
          elim (Option-cases (quoted body)) [
            | inl unclosed ↦ ground arith
            | inr (found, closed) ↦
                let less : length found.1 < length body = shorter body found closed in
                let val' = if length val == 0 then val else val ++ (b' ' ∷ []) in
                let more =
                  text_loop_total fuel multi found.1 (val' ++ ((34 ∷ found.0) ++ (34 ∷ [])))
                    (omega arith) in
                ground arith
          ]
    ])

bind_total :
    {A B : Type 0} (p : Parsed A) (f : A → B)
    → p ≢ failed stuck
    → (p >>= λ x. parsed (f x)) ≢ failed stuck
bind_total (parsed x) f h = λ e. cc
bind_total (failed why) f h = λ e. h (ground arith)

-- `xfrText` ends on every text.
xfr_text_total : (multi : Bool) (r : RecordTextReader) → Reader.xfr_text multi r ≢ failed stuck
unfolding Reader.xfr_text
xfr_text_total multi r =
    bind_total (text_loop (length r.rest) multi r.rest []) _
      (text_loop_total (length r.rest) multi r.rest [] (omega arith))
