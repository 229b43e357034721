-- ===== src/Text.antt =====
-- The string functions on names and lines of pdns/pdns/misc.cc and pdns/pdns/misc.hh.
pub mod Chop
pub mod Relative
pub mod Tokens
pub mod Labels
use powerdns_improved_lua.Prelude.{
  ℕ, zero, suc, ◌+◌, ◌-◌, Bool, true, false, ◌&&◌, ◌||◌, not, List, [], ◌∷◌, ◌++◌, reverse, leb,
  ◌==◌, if◌then◌else◌, length, drop, take, get_or, Option, none, some,
}
use powerdns_improved_lua.Name.{Bytes, ends_on, to_lower, bytes_eq}
use mathlib.Core.Option

-- std::string::find of one character; `none` is npos.
unfoldable pub find : ℕ → Bytes → Option ℕ
find c [] = none
find c (x ∷ xs) = if x == c then some 0 else Option.map suc (find c xs)

-- The returned flag, and the string as the function leaves it.
unfoldable pub chop_off : Bytes → Bool × Bytes
chop_off domain =
    if length domain == 0
    then (false, domain)
    else elim (find b'.' domain) [ none ↦ (true, []) | some fdot ↦ (true, drop (suc fdot) domain) ]

unfoldable pub chop_off_dotted : Bytes → Bool × Bytes
chop_off_dotted domain =
    if length domain == 0 || (length domain == 1 && get_or domain 0 0 == b'.')
    then (false, domain)
    else elim (find b'.' domain) [
      | none ↦ (false, domain)
      | some fdot ↦
          if fdot == length domain - 1 then (true, b'.' ∷ []) else (true, drop (suc fdot) domain)
    ]

-- For the empty domain the source reads the last byte, and keeps what stands before it. An empty
-- `qname` with an empty domain is the "@" case.
unfoldable pub strip_domain_suffix : Bytes → Bytes → Bool × Bytes
strip_domain_suffix qname domain =
    if not (ends_on qname domain)
    then (false, qname)
    else if bytes_eq (to_lower qname) (to_lower domain)
    then (true, b'@' ∷ [])
    else (let cut = length qname - length domain - 1 in
        if not (get_or qname cut 0 == b'.') then (false, qname) else (true, take cut qname))

unfoldable pub strip_dot : Bytes → Bytes
strip_dot dom =
    if length dom == 0
    then dom
    else if not (get_or dom (length dom - 1) 0 == b'.')
    then dom
    else take (length dom - 1) dom

unfoldable pub is_canonical : Bytes → Bool
is_canonical dom = if length dom == 0 then false else get_or dom (length dom - 1) 0 == b'.'

unfoldable pub to_canonic : Bytes → Bytes → Bytes
unfolding is_canonical
to_canonic zone domain =
    if length domain == 1 && get_or domain 0 0 == b'@'
    then zone
    else if is_canonical domain
    then domain
    else (let ret = domain ++ (b'.' ∷ []) in
        if not (length zone == 0) && not (get_or zone 0 0 == b'.') then ret ++ zone else ret)

unfoldable pub to_lower_canonic : Bytes → Bytes
to_lower_canonic upper =
    if length upper == 0
    then upper
    else if get_or upper (length upper - 1) 0 == b'.'
    then take (length upper - 1) (to_lower upper)
    else to_lower upper

-- Where `fqdn` is not longer than the zone the length wraps around, and substr returns all of it.
unfoldable pub make_relative : Bytes → Bytes → Bytes
make_relative fqdn zone =
    if length zone == 0
    then fqdn
    else if not (bytes_eq fqdn zone)
    then (if leb (length zone + 1) (length fqdn)
        then take (length fqdn - length zone - 1) fqdn
        else fqdn)
    else []

unfoldable pub dot_concat : Bytes → Bytes → Bytes
dot_concat a b = if length a == 0 || length b == 0 then a ++ b else (a ++ (b'.' ∷ [])) ++ b

unfoldable pub split_field : Bytes → ℕ → Bytes × Bytes
split_field inp sepa = elim (find sepa inp) [
  | none ↦ (inp, [])
  | some cpos ↦ (take cpos inp, drop (suc cpos) inp)
]

unfoldable pub unquotify : Bytes → Bytes
unquotify item =
    if not (leb 2 (length item))
    then item
    else (let bpos = if get_or item 0 0 == b'"' then 1 else 0 in
        let epos =
          if get_or item (length item - 1) 0 == b'"' then length item - 1 else length item in
        take (epos - bpos) (drop bpos item))

-- find_first_of("\r\n") and resize: the line up to its first line end.
unfoldable pub strip_line : Bytes → Bytes
strip_line [] = []
strip_line (c ∷ line) = let rest = strip_line line in if c == 13 || c == 10 then [] else c ∷ rest

unfoldable pub url_encode : Bytes → Bytes
url_encode [] = []
url_encode (c ∷ text) =
    let rest = url_encode text in if c == b' ' then b'%' ∷ b'2' ∷ b'0' ∷ rest else c ∷ rest

-- The loop of `cleanSlashes` behind its first character; `before` is the character at `i - 1`.
unfoldable pub clean_slashes_from : ℕ → Bytes → Bytes
clean_slashes_from before [] = []
clean_slashes_from before (c ∷ str) =
    let rest = clean_slashes_from c str in if c == b'/' && before == b'/' then rest else c ∷ rest

unfoldable pub clean_slashes : Bytes → Bytes
unfolding clean_slashes_from
clean_slashes [] = []
clean_slashes (c ∷ str) = c ∷ clean_slashes_from c str

-- find_first_not_of, and find_first_of, for a test of the delimiters: what the search passes over,
-- and the rest.
unfoldable pub drop_while : (ℕ → Bool) → Bytes → Bytes
drop_while p [] = []
drop_while p (c ∷ s) = let rest = drop_while p s in if p c then rest else c ∷ s

unfoldable pub take_while : (ℕ → Bool) → Bytes → Bytes
take_while p [] = []
take_while p (c ∷ s) = let rest = take_while p s in if p c then c ∷ rest else []

-- One round for each token; the text is what stands from `i` on. Each round but the last passes
-- over one character at least, so that one round more than the text is long is enough.
unfoldable pub stringtok_loop : ℕ → (ℕ → Bool) → Bytes → List Bytes
unfolding drop_while take_while
stringtok_loop zero delim s = []
stringtok_loop (suc fuel) delim s =
    let rest = drop_while delim s in
    let after = drop_while (λ c. not (delim c)) rest in
    let token = take_while (λ c. not (delim c)) rest in
    let more = stringtok_loop fuel delim (drop 1 after) in
    if length rest == 0 then [] else if length after == 0 then token ∷ [] else token ∷ more

unfoldable pub stringtok : (ℕ → Bool) → Bytes → List Bytes
unfolding stringtok_loop
stringtok delim s = stringtok_loop (suc (length s)) delim s

-- The labels with a separator between them.
unfoldable pub join : ℕ → List Bytes → Bytes
join sep [] = []
join sep (l ∷ []) = l
join sep (l ∷ m ∷ ls) = l ++ (sep ∷ join sep (m ∷ ls))

abbrev pub dot_or_space : ℕ → Bool
dot_or_space c = c == b'.' || c == b' '

unfoldable pub label_reverse : Bytes → Bytes
label_reverse qname =
    if length qname == 0
    then qname
    else (let labels = stringtok dot_or_space qname in
        let sep : ℕ = elim (find b'.' qname) [ none ↦ b'.' | some _ ↦ b' ' ] in
        if length labels == 1 then qname else join sep (reverse labels))
