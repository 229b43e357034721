-- ===== src/Tests/NameTests.antt =====
-- Names and text: runs and instances.
use powerdns_improved_lua.Prelude.{
  ◌≡◌, refl, ◌⊎◌, ◌↔◌, true, false, not, List, [], ◌∷◌, ◌++◌, arith,
}
use powerdns_improved_lua.Name.{
  Bytes, to_lower, dns_tolower, pdns_iequals, ci_equal, pdns_ilexicographical_compare, ends_on,
  dotted_ends_on, bytes_eq, same_letters,
}
use powerdns_improved_lua.Name.Suffix.{HasLabelSuffix, ends_on_iff}
use powerdns_improved_lua.Text.{
  find, chop_off, chop_off_dotted, strip_domain_suffix, strip_dot, is_canonical, to_canonic,
  make_relative, dot_concat, split_field, stringtok, join, dot_or_space, label_reverse, unquotify,
  strip_line, clean_slashes, url_encode, to_lower_canonic,
}
use powerdns_improved_lua.Text.Relative.{strip_domain_suffix_iff}
use powerdns_improved_lua.Text.Tokens.{AreTokens, concat, keep, stringtok-tokens}

abbrev www : Bytes
www = b'w' ∷ b'W' ∷ b'w' ∷ []

abbrev ds9a : Bytes
ds9a = b'd' ∷ b'.' ∷ b'n' ∷ b'l' ∷ []

abbrev ds9a_upper : Bytes
ds9a_upper = b'D' ∷ b'.' ∷ b'N' ∷ b'l' ∷ []

abbrev www_ds9a : Bytes
www_ds9a = b'w' ∷ b'.' ∷ ds9a

abbrev wwwds9a : Bytes
wwwds9a = b'w' ∷ ds9a

abbrev nl : Bytes
nl = b'n' ∷ b'l' ∷ []

abbrev w : Bytes
w = b'w' ∷ []

abbrev at_name : Bytes
at_name = b'@' ∷ []

program : Unit {0}
unfolding dns_tolower to_lower pdns_iequals ci_equal same_letters pdns_ilexicographical_compare
    ends_on dotted_ends_on bytes_eq find chop_off chop_off_dotted strip_domain_suffix strip_dot
    is_canonical to_canonic make_relative dot_concat split_field stringtok join label_reverse
    unquotify strip_line clean_slashes url_encode to_lower_canonic
program = tt

-- The comments of the source: "www.ds9a.nl" goes to "ds9a.nl", and "wwwds9a.nl" does not end on it.
suffix_runs :
    (ends_on www_ds9a ds9a_upper ≡ true)
    × (ends_on wwwds9a ds9a ≡ false)
    × (dotted_ends_on ds9a (b'.' ∷ []) ≡ true)
    × (chop_off www_ds9a ≡ (true, ds9a))
    × (chop_off_dotted (b'n' ∷ b'.' ∷ []) ≡ (true, b'.' ∷ []))
    × (strip_domain_suffix www_ds9a ds9a ≡ (true, b'w' ∷ []))
    × (make_relative www_ds9a ds9a ≡ b'w' ∷ [])
unfolding program
suffix_runs = (refl, refl, refl, refl, refl, refl, refl)

text_runs :
    (unquotify (b'"' ∷ b'a' ∷ b'"' ∷ []) ≡ b'a' ∷ [])
    × (strip_line (b'a' ∷ 13 ∷ 10 ∷ []) ≡ b'a' ∷ [])
    × (clean_slashes (b'/' ∷ b'/' ∷ b'a' ∷ []) ≡ b'/' ∷ b'a' ∷ [])
    × (url_encode (b'a' ∷ b' ' ∷ []) ≡ b'a' ∷ b'%' ∷ b'2' ∷ b'0' ∷ [])
    × (to_lower_canonic (b'A' ∷ b'.' ∷ []) ≡ b'a' ∷ [])
    × (label_reverse www_ds9a ≡ b'n' ∷ b'l' ∷ b' ' ∷ b'd' ∷ b' ' ∷ b'w' ∷ [])
unfolding program
text_runs = (refl, refl, refl, refl, refl, refl)

ends_on_iff_example : (ends_on www_ds9a ds9a_upper ≡ true) ↔ (
    (ds9a_upper ≡ [])
    ⊎ ((to_lower www_ds9a ≡ to_lower ds9a_upper) ⊎ HasLabelSuffix www_ds9a ds9a_upper))
ends_on_iff_example = ends_on_iff www_ds9a ds9a_upper

strip_domain_suffix_iff_example : (strip_domain_suffix www_ds9a ds9a ≡ (true, w)) ↔ (
    ((to_lower www_ds9a ≡ to_lower ds9a) × (w ≡ at_name))
    ⊎ ((rest : Bytes) × (www_ds9a ≡ w ++ (b'.' ∷ rest)) × (to_lower rest ≡ to_lower ds9a)))
strip_domain_suffix_iff_example = strip_domain_suffix_iff www_ds9a ds9a w

stringtok-tokens_example :
    AreTokens dot_or_space (stringtok dot_or_space ds9a)
    × (concat (stringtok dot_or_space ds9a) ≡ keep (λ c. not (dot_or_space c)) ds9a)
stringtok-tokens_example = stringtok-tokens dot_or_space ds9a

abbrev two_labels : List Bytes
two_labels = (b'd' ∷ []) ∷ (b'n' ∷ b'l' ∷ []) ∷ []

two_labels-AreTokens : AreTokens dot_or_space two_labels
two_labels-AreTokens = ground arith
