-- ===== src/Text/Labels.antt =====
-- `labelReverse` of pdns/pdns/misc.cc, which stores names with their labels turned round.
use powerdns_improved_lua.Prelude.{
  ℕ, suc, ◌≤◌, ◌<◌, ◌≡◌, ◌≢◌, refl, ap, ◌∙◌, inl, inr, not, [], ◌∷◌, ◌++◌, arith, length,
  length-append, ◌==◌, Bool-cases, none, some, List, reverse,
}
use mathlib.Core.List.{reverse-cons, reverse-reverse}
use powerdns_improved_lua.Name.{Bytes}
use powerdns_improved_lua.Text.{find, stringtok, join, dot_or_space, label_reverse}
use powerdns_improved_lua.Text.Chop.{Lacks, find-none}
use powerdns_improved_lua.Text.Tokens.{AllPass, AreTokens, stringtok-join}

-- A name's labels: nonempty, without dots and spaces.
abbrev pub AreLabels : List Bytes → Type 0
AreLabels = AreTokens dot_or_space

append-AreLabels : (a b : List Bytes) → AreLabels a → AreLabels b → AreLabels (a ++ b)
append-AreLabels [] b h k = k
append-AreLabels (x ∷ a) b (f, p, h) k = (f, p, append-AreLabels a b h k)

reverse-AreLabels : (ls : List Bytes) → AreLabels ls → AreLabels (reverse ls)
reverse-AreLabels [] h = tt
reverse-AreLabels (l ∷ ls) (f, p, h) =
    rw reverse-cons (append-AreLabels (reverse ls) (l ∷ []) (reverse-AreLabels ls h) (f, p, tt))

length-reverse : (ls : List Bytes) → length (reverse ls) ≡ length ls
length-reverse [] = refl
length-reverse (l ∷ ls) =
    rw reverse-cons (omega (arith, length-append (reverse ls) (l ∷ []), length-reverse ls))

label_Lacks : (l : Bytes) → AllPass (λ c. not (dot_or_space c)) l → Lacks b'.' l
label_Lacks [] h = tt
label_Lacks (c ∷ l) (h, hs) = (λ e. unfold dot_or_space in ground arith, label_Lacks l hs)

append-Lacks : (c : ℕ) (a b : Bytes) → Lacks c a → Lacks c b → Lacks c (a ++ b)
append-Lacks c [] b h k = k
append-Lacks c (x ∷ a) b (h, hs) k = (h, append-Lacks c a b hs k)

join_spaces-Lacks : (ls : List Bytes) → AreLabels ls → Lacks b'.' (join b' ' ls)
unfolding join
join_spaces-Lacks [] h = tt
join_spaces-Lacks (l ∷ []) (f, p, h) = label_Lacks l p
join_spaces-Lacks (l ∷ m ∷ ls) (f, p, h) =
    append-Lacks b'.' l (b' ' ∷ join b' ' (m ∷ ls)) (label_Lacks l p)
      (omega arith, join_spaces-Lacks (m ∷ ls) h)

find-append_some : (a b : Bytes) → (i : ℕ) × (find b'.' (a ++ (b'.' ∷ b)) ≡ some i)
unfolding find
find-append_some [] b = (0, ground arith)
find-append_some (x ∷ a) b = elim (Bool-cases (x == b'.')) [
  | inl e ↦ (0, rw e)
  | inr e ↦ let (i, h) = find-append_some a b in (suc i, rw (e, h))
]

with_dot :
    (q : Bytes) (i : ℕ)
    → 0 < length q
    → find b'.' q ≡ some i
    → length (stringtok dot_or_space q) ≢ 1
    → label_reverse q ≡ join b' ' (reverse (stringtok dot_or_space q))
unfolding label_reverse
with_dot q i h f k = ground arith

without_dot :
    (q : Bytes)
    → 0 < length q
    → find b'.' q ≡ none
    → length (stringtok dot_or_space q) ≢ 1
    → label_reverse q ≡ join b'.' (reverse (stringtok dot_or_space q))
unfolding label_reverse
without_dot q h f k = ground arith

length-join : (sep : ℕ) (l m : Bytes) (ls : List Bytes) → 0 < length (join sep (l ∷ m ∷ ls))
unfolding join
length-join sep l m ls = omega (arith, length-append l (sep ∷ join sep (m ∷ ls)))

-- Two labels or more, written with dots, come out turned round and with spaces.
reverse_dots :
    (l m : Bytes) (ls : List Bytes)
    → AreLabels (l ∷ m ∷ ls)
    → label_reverse (join b'.' (l ∷ m ∷ ls)) ≡ join b' ' (reverse (l ∷ m ∷ ls))
reverse_dots l m ls h =
    let tokens = stringtok-join dot_or_space b'.' (l ∷ m ∷ ls) refl h in
    let (i, found) = find-append_some l (join b'.' (m ∷ ls)) in
    with_dot (join b'.' (l ∷ m ∷ ls)) i (length-join b'.' l m ls) (unfold join in found)
      (rw tokens (omega arith))
    ∙ ap (λ (t : List Bytes). join b' ' (reverse t)) tokens

-- Two labels or more, written with spaces, come out turned round and with dots.
reverse_spaces :
    (l m : Bytes) (ls : List Bytes)
    → AreLabels (l ∷ m ∷ ls)
    → label_reverse (join b' ' (l ∷ m ∷ ls)) ≡ join b'.' (reverse (l ∷ m ∷ ls))
reverse_spaces l m ls h =
    let tokens = stringtok-join dot_or_space b' ' (l ∷ m ∷ ls) refl h in
    let none_found = find-none b'.' (join b' ' (l ∷ m ∷ ls)) (join_spaces-Lacks (l ∷ m ∷ ls) h) in
    without_dot (join b' ' (l ∷ m ∷ ls)) (length-join b' ' l m ls) none_found
      (rw tokens (omega arith))
    ∙ ap (λ (t : List Bytes). join b'.' (reverse t)) tokens

reverse_spaces_list :
    (ls : List Bytes)
    → 2 ≤ length ls
    → AreLabels ls
    → label_reverse (join b' ' ls) ≡ join b'.' (reverse ls)
reverse_spaces_list [] k h = absurd (omega arith)
reverse_spaces_list (l ∷ []) k h = absurd (omega arith)
reverse_spaces_list (l ∷ m ∷ ls) k h = reverse_spaces l m ls h

-- `labelReverse` writes the labels of a dotted name in the other order with spaces between them,
-- and applied again it gives the name back.
pub label_reverse-label_reverse :
    (l m : Bytes) (ls : List Bytes)
    → AreLabels (l ∷ m ∷ ls)
    → (label_reverse (join b'.' (l ∷ m ∷ ls)) ≡ join b' ' (reverse (l ∷ m ∷ ls)))
      × (label_reverse (label_reverse (join b'.' (l ∷ m ∷ ls))) ≡ join b'.' (l ∷ m ∷ ls))
label_reverse-label_reverse l m ls h =
    let once = reverse_dots l m ls h in
    let back = reverse-AreLabels (l ∷ m ∷ ls) h in
    let long : 2 ≤ length (reverse (l ∷ m ∷ ls)) = omega (arith, length-reverse (l ∷ m ∷ ls)) in
    (
      once,
      ap label_reverse once
          ∙ reverse_spaces_list (reverse (l ∷ m ∷ ls)) long back
          ∙ ap (join b'.') (reverse-reverse (l ∷ m ∷ ls)),
    )
