-- ===== src/Name.antt =====
-- Domain names as text, after pdns/pdns/misc.hh and pdns/pdns/misc.cc. A C++ string is the list of
-- its bytes.
pub mod Compare
pub mod Suffix
use powerdns_improved_lua.Prelude.{
  ℕ, ◌+◌, ◌-◌, ◌≡◌, refl, ◌↔◌, arith, Bool, true, false, ◌&&◌, ◌||◌, not, List, [], ◌∷◌, ◌++◌, map,
  ◌<◌, ltb, leb, ◌==◌, if◌then◌else◌, length, drop, get_or,
}

-- A string.
abbrev pub Bytes : Type 0
Bytes = List ℕ

-- Every element is a byte.
abbrev pub AreBytes : Bytes → Type 0
AreBytes [] = Unit
AreBytes (c ∷ s) = (c < 256) × AreBytes s

-- Bytes above 127 are negative as `char`, and fail both tests there as well.
unfoldable pub dns_tolower : ℕ → ℕ
dns_tolower c = if leb b'A' c && leb c b'Z' then c + 32 else c

unfoldable pub to_lower : Bytes → Bytes
to_lower = map dns_tolower

-- The loop stops at the shorter string's end, and then the lengths are compared.
unfoldable pub pdns_iequals : Bytes → Bytes → Bool
pdns_iequals [] [] = true
pdns_iequals [] (y ∷ ys) = false
pdns_iequals (x ∷ xs) [] = false
pdns_iequals (x ∷ xs) (y ∷ ys) = (dns_tolower x == dns_tolower y) && pdns_iequals xs ys

-- The loop of `ciEqual` and of the suffix tests: the two strings have the same length.
unfoldable pub same_letters : Bytes → Bytes → Bool
same_letters [] ys = true
same_letters (x ∷ xs) ys =
    let rest = same_letters xs (drop 1 ys) in
    if not (dns_tolower x == dns_tolower (get_or ys 0 0)) then false else rest

unfoldable pub ci_equal : Bytes → Bytes → Bool
ci_equal a b = if not (length a == length b) then false else same_letters a b

-- `a < b` for two bytes as `char`: those above 127 are negative.
unfoldable pub char_lt : ℕ → ℕ → Bool
char_lt a b =
    if leb 128 a
    then (if leb 128 b then ltb a b else true)
    else if leb 128 b
    then false
    else ltb a b

-- Strict order of the first differing lower-case byte, and the shorter string first.
unfoldable pub pdns_ilexicographical_compare : Bytes → Bytes → Bool
unfolding char_lt
pdns_ilexicographical_compare [] [] = false
pdns_ilexicographical_compare [] (y ∷ ys) = true
pdns_ilexicographical_compare (x ∷ xs) [] = false
pdns_ilexicographical_compare (x ∷ xs) (y ∷ ys) =
    let rest = pdns_ilexicographical_compare xs ys in
    if dns_tolower x == dns_tolower y then rest else char_lt (dns_tolower x) (dns_tolower y)

-- The part of `endsOn` and `dottedEndsOn` behind their first test.
unfoldable pub ends_behind_dot : Bytes → Bytes → Bool
ends_behind_dot domain suffix =
    if leb (length domain) (length suffix)
    then false
    else (let dpos = length domain - length suffix - 1 in
        if not (get_or domain dpos 0 == b'.')
        then false
        else same_letters (drop (dpos + 1) domain) suffix)

unfoldable pub ends_on : Bytes → Bytes → Bool
unfolding ends_behind_dot
ends_on domain suffix =
    if (length suffix == 0) || ci_equal domain suffix then true else ends_behind_dot domain suffix

-- `operator==` of std::string.
unfoldable pub bytes_eq : Bytes → Bytes → Bool
bytes_eq [] [] = true
bytes_eq [] (y ∷ ys) = false
bytes_eq (x ∷ xs) [] = false
bytes_eq (x ∷ xs) (y ∷ ys) = x == y && bytes_eq xs ys

bytes_eq→eq : (a b : Bytes) → bytes_eq a b ≡ true → a ≡ b
unfolding bytes_eq
bytes_eq→eq [] [] h = refl
bytes_eq→eq [] (y ∷ ys) h = cc
bytes_eq→eq (x ∷ xs) [] h = cc
bytes_eq→eq (x ∷ xs) (y ∷ ys) h = ground (arith, bytes_eq→eq xs ys)

bytes_eq_self : (a : Bytes) → bytes_eq a a ≡ true
unfolding bytes_eq
bytes_eq_self [] = refl
bytes_eq_self (x ∷ xs) = ground (arith, bytes_eq_self xs)

pub bytes_eq_iff : (a b : Bytes) → (bytes_eq a b ≡ true) ↔ (a ≡ b)
bytes_eq_iff a b = (bytes_eq→eq a b, λ e. rw e (bytes_eq_self b))

unfoldable pub dotted_ends_on : Bytes → Bytes → Bool
unfolding ends_behind_dot
dotted_ends_on domain suffix =
    if bytes_eq suffix (b'.' ∷ []) || ci_equal domain suffix
    then true
    else ends_behind_dot domain suffix
