-- ===== src/PacketCache/Order.antt =====
-- The order of names in the container of pdns/pdns/packetcache.hh, CIBackwardsStringCompare, and the
-- comparison without regard to case.
use powerdns_improved_lua.Prelude.{
  ℕ, ◌≡◌, refl, sym, ap, ◌∙◌, ◌↔◌, inl, inr, not, ◌&&◌, [], ◌∷◌, ◌++◌, map, reverse, arith,
  Bool-cases,
}
use mathlib.Core.List.{reverse-cons, reverse-reverse, map-append}
use powerdns_improved_lua.Name.{Bytes, dns_tolower, to_lower, pdns_iequals, char_lt}
use powerdns_improved_lua.Name.Compare.{iequals_iff}
use powerdns_improved_lua.Text.Chop.{Lacks}
use powerdns_improved_lua.PacketCache.{backwards, name_lt}

backwards-iequals :
    (xs ys : Bytes)
    → Lacks 0 xs
    → Lacks 0 ys
    → not (backwards xs ys) && not (backwards ys xs) ≡ pdns_iequals xs ys
unfolding backwards pdns_iequals char_lt
backwards-iequals [] [] h k = refl
backwards-iequals [] (y ∷ ys) h k = ground arith
backwards-iequals (x ∷ xs) [] h k = ground arith
backwards-iequals (x ∷ xs) (y ∷ ys) h k = ground (arith, backwards-iequals xs ys)

map-reverse : (s : Bytes) → to_lower (reverse s) ≡ reverse (to_lower s)
unfolding to_lower
map-reverse [] = refl
map-reverse (x ∷ xs) =
    ap (map dns_tolower) (reverse-cons x xs)
    ∙ map-append dns_tolower (reverse xs) (x ∷ [])
    ∙ ap (λ (l : Bytes). l ++ (dns_tolower x ∷ [])) (map-reverse xs)
    ∙ sym (reverse-cons (dns_tolower x) (map dns_tolower xs))

Lacks-append : (c : ℕ) (s t : Bytes) → Lacks c s → Lacks c t → Lacks c (s ++ t)
Lacks-append c [] t h k = k
Lacks-append c (x ∷ s) t h k = (h.0, Lacks-append c s t h.1 k)

Lacks-reverse : (c : ℕ) (s : Bytes) → Lacks c s → Lacks c (reverse s)
Lacks-reverse c [] h = tt
Lacks-reverse c (x ∷ s) h =
    rw (reverse-cons x s) (Lacks-append c (reverse s) (x ∷ []) (Lacks-reverse c s h.1) (h.0, tt))

iequals_iff-to_eq :
    (a b c d : Bytes)
    → (to_lower a ≡ to_lower b) ↔ (to_lower c ≡ to_lower d)
    → pdns_iequals a b ≡ pdns_iequals c d
iequals_iff-to_eq a b c d (there, back) = elim (Bool-cases (pdns_iequals a b)) [
  | inl h ↦ h ∙ sym ((iequals_iff c d).1 (there ((iequals_iff a b).0 h)))
  | inr h ↦ elim (Bool-cases (pdns_iequals c d)) [
    | inl k ↦ (iequals_iff a b).1 (back ((iequals_iff c d).0 k)) ∙ sym k
    | inr k ↦ h ∙ sym k
  ]
]

reverse-iequals : (a b : Bytes) → pdns_iequals (reverse a) (reverse b) ≡ pdns_iequals a b
reverse-iequals a b = iequals_iff-to_eq (reverse a) (reverse b) a b (
  (λ e.
      sym (reverse-reverse (to_lower a))
      ∙ ap reverse (sym (map-reverse a) ∙ e ∙ map-reverse b)
      ∙ reverse-reverse (to_lower b)),
  λ e. map-reverse a ∙ ap reverse e ∙ sym (map-reverse b),
)

-- Of names without a 0 byte, those that the container's order puts neither before nor after each
-- other are the ones that are equal without regard to case.
pub name_lt-iequals :
    (a b : Bytes)
    → Lacks 0 a
    → Lacks 0 b
    → not (name_lt a b) && not (name_lt b a) ≡ pdns_iequals a b
unfolding name_lt
name_lt-iequals a b h k =
    backwards-iequals (reverse a) (reverse b) (Lacks-reverse 0 a h) (Lacks-reverse 0 b k)
    ∙ reverse-iequals a b
