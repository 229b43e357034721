-- ===== src/RecordText/Texts.antt =====
-- Quoted texts in records, in pdns/pdns/rcpgenerator.cc: what the reader makes of what the writer
-- writes.
use powerdns_improved_lua.Prelude.{
  ℕ, zero, suc, ◌<◌, ◌≡◌, refl, ap, ◌∙◌, inl, inr, Bool, true, not, ◌&&◌, List, [], ◌∷◌, ◌++◌,
  length, ◌==◌, if◌then◌else◌, arith, Bool-cases, append_assoc, length-append, some,
}
use powerdns_improved_lua.Name.{Bytes}
use powerdns_improved_lua.Text.{drop_while}
use powerdns_improved_lua.RecordText.{parsed, is_space}
use powerdns_improved_lua.RecordText.Reader.{RecordTextReader, quoted, text_loop}
use powerdns_improved_lua.RecordText.Reader as Reader

-- What may stand between quotes: no quote but behind a backslash, which takes a character with it.
unfoldable pub is_body : Bytes → Bool
is_body [] = true
is_body (c ∷ []) = not (c == 34) && not (c == b'\\')
is_body (c ∷ d ∷ rest) =
    let plain = is_body (d ∷ rest) in
    let escaped = is_body rest in not (c == 34) && (if c == b'\\' then escaped else plain)

quoted-body :
    (body tail : Bytes) → is_body body ≡ true → quoted (body ++ (34 ∷ tail)) ≡ some (body, tail)
unfolding quoted is_body
quoted-body [] [] h = refl
quoted-body [] (d ∷ tail) h = refl
quoted-body (c ∷ []) [] h = ground arith
quoted-body (c ∷ []) (d ∷ tail) h = ground arith
quoted-body (c ∷ d ∷ rest) tail h = elim (Bool-cases (c == b'\\')) [
  | inl escape ↦ ground (arith, quoted-body rest tail)
  | inr plain ↦ ground (arith, quoted-body (d ∷ rest) tail)
]

-- Texts as a record holds them.
unfoldable pub line : List Bytes → Bytes
line [] = []
line (b ∷ []) = 34 ∷ b ++ (34 ∷ [])
line (b ∷ c ∷ texts) = 34 ∷ b ++ (34 ∷ b' ' ∷ line (c ∷ texts))

unfoldable pub all_bodies : List Bytes → Bool
all_bodies [] = true
all_bodies (b ∷ texts) = is_body b && all_bodies texts

-- A round of the loop, at a quote and at the space in front of one.
text_round :
    (fuel : ℕ) (multi : Bool) (body tail val : Bytes)
    → is_body body ≡ true
    → text_loop (suc fuel) multi (34 ∷ body ++ (34 ∷ tail)) val ≡ (
        if multi
        then text_loop fuel multi tail
            ((if length val == 0 then val else val ++ (b' ' ∷ [])) ++ ((34 ∷ body) ++ (34 ∷ [])))
        else parsed (
          (if length val == 0 then val else val ++ (b' ' ∷ [])) ++ ((34 ∷ body) ++ (34 ∷ [])),
          tail,
        ))
unfolding text_loop drop_while is_space
text_round fuel multi body tail val h = ground (arith, quoted-body body tail h)

text_round_behind :
    (fuel : ℕ) (multi : Bool) (body tail val : Bytes)
    → text_loop (suc fuel) multi (b' ' ∷ 34 ∷ body) val ≡ text_loop (suc fuel) multi (34 ∷ body) val
unfolding text_loop drop_while is_space
text_round_behind fuel multi body tail val = refl

line_behind :
    (fuel : ℕ) (c : Bytes) (texts : List Bytes) (val : Bytes)
    → text_loop (suc fuel) true (b' ' ∷ line (c ∷ texts)) val
      ≡ text_loop (suc fuel) true (line (c ∷ texts)) val
unfolding line
line_behind fuel c [] val = text_round_behind fuel true (c ++ (34 ∷ [])) [] val
line_behind fuel c (d ∷ texts) val =
    text_round_behind fuel true (c ++ (34 ∷ b' ' ∷ line (d ∷ texts))) [] val

joined : Bytes → Bytes
joined val = if length val == 0 then val else val ++ (b' ' ∷ [])

text_more :
    (fuel : ℕ) (body tail val : Bytes)
    → is_body body ≡ true
    → text_loop (suc fuel) true (34 ∷ body ++ (34 ∷ tail)) val
      ≡ text_loop fuel true tail (joined val ++ ((34 ∷ body) ++ (34 ∷ [])))
unfolding joined
text_more fuel body tail val h = text_round fuel true body tail val h

text_end : (fuel : ℕ) (val : Bytes) → text_loop fuel true [] val ≡ parsed (val, [])
unfolding text_loop
text_end zero val = refl
text_end (suc fuel) val = refl

joined_more :
    (val body : Bytes)
    → joined (val ++ ((34 ∷ body) ++ (34 ∷ [])))
      ≡ (val ++ ((34 ∷ body) ++ (34 ∷ []))) ++ (b' ' ∷ [])
unfolding joined
joined_more val body = let size = length-append val ((34 ∷ body) ++ (34 ∷ [])) in ground arith

quoted_then :
    (val body rest : Bytes)
    → ((val ++ ((34 ∷ body) ++ (34 ∷ []))) ++ (b' ' ∷ [])) ++ rest
      ≡ val ++ (34 ∷ body ++ (34 ∷ b' ' ∷ rest))
quoted_then val body rest =
    append_assoc (val ++ ((34 ∷ body) ++ (34 ∷ []))) (b' ' ∷ []) rest
    ∙ append_assoc val ((34 ∷ body) ++ (34 ∷ [])) (b' ' ∷ rest)
    ∙ ap (λ (t : Bytes). val ++ (34 ∷ t)) (append_assoc body (34 ∷ []) (b' ' ∷ rest))

text_loop-line :
    (fuel : ℕ) (b : Bytes) (texts : List Bytes) (val : Bytes)
    → all_bodies (b ∷ texts) ≡ true
    → length texts < fuel
    → text_loop fuel true (line (b ∷ texts)) val ≡ parsed (joined val ++ line (b ∷ texts), [])
unfolding line all_bodies
text_loop-line zero b texts val h low = absurd (omega arith)
text_loop-line (suc fuel) b [] val h low =
    text_more fuel b [] val (ground arith) ∙ text_end fuel (joined val ++ ((34 ∷ b) ++ (34 ∷ [])))
text_loop-line (suc zero) b (c ∷ texts) val h low = absurd (omega arith)
text_loop-line (suc (suc fuel)) b (c ∷ texts) val h low =
    let more = joined val ++ ((34 ∷ b) ++ (34 ∷ [])) in
    text_more (suc fuel) b (b' ' ∷ line (c ∷ texts)) val (ground arith)
    ∙ line_behind fuel c texts more
    ∙ text_loop-line (suc fuel) c texts more (ground arith) (omega arith)
    ∙ ap (λ (t : Bytes). parsed (t ++ line (c ∷ texts), [])) (joined_more (joined val) b)
    ∙ ap (λ (t : Bytes). parsed (t, [])) (quoted_then (joined val) b (line (c ∷ texts)))

length-line : (b : Bytes) (texts : List Bytes) → length texts < length (line (b ∷ texts))
unfolding line
length-line b [] = omega arith
length-line b (c ∷ texts) =
    let more = length-line c texts in
    let size = length-append b (34 ∷ b' ' ∷ line (c ∷ texts)) in omega arith

-- Any texts in quotes, with a space between them, are read as they stand.
pub xfr_text-line :
    (b : Bytes) (texts : List Bytes) (zone : Bytes)
    → all_bodies (b ∷ texts) ≡ true
    → Reader.xfr_text true (record { rest = line (b ∷ texts); zone = zone })
      ≡ parsed (line (b ∷ texts), record { rest = []; zone = zone })
unfolding Reader.xfr_text
xfr_text-line b texts zone h =
    let whole = text_loop-line (length (line (b ∷ texts))) b texts [] h (length-line b texts) in
    rw whole (unfold joined in refl)
