-- ===== src/Name/Compare.antt =====
-- The case-insensitive comparisons of pdns/pdns/misc.hh: pdns_iequals, ciEqual and CIStringCompare.
use powerdns_improved_lua.Prelude.{◌≡◌, refl, sym, ◌↔◌, true, false, [], ◌∷◌, arith, length}
use powerdns_improved_lua.Name.{
  Bytes, to_lower, pdns_iequals, same_letters, ci_equal, pdns_ilexicographical_compare,
}

iequals→lower : (a b : Bytes) → pdns_iequals a b ≡ true → to_lower a ≡ to_lower b
unfolding pdns_iequals to_lower
iequals→lower [] [] h = refl
iequals→lower [] (y ∷ ys) h = cc
iequals→lower (x ∷ xs) [] h = cc
iequals→lower (x ∷ xs) (y ∷ ys) h = ground (arith, iequals→lower xs ys)

lower→iequals : (a b : Bytes) → to_lower a ≡ to_lower b → pdns_iequals a b ≡ true
unfolding pdns_iequals to_lower
lower→iequals [] [] h = refl
lower→iequals [] (y ∷ ys) h = cc
lower→iequals (x ∷ xs) [] h = cc
lower→iequals (x ∷ xs) (y ∷ ys) h = ground (arith, lower→iequals xs ys)

-- `pdns_iequals` holds exactly of the strings that have the same lower-case form.
pub iequals_iff : (a b : Bytes) → (pdns_iequals a b ≡ true) ↔ (to_lower a ≡ to_lower b)
iequals_iff a b = (iequals→lower a b, lower→iequals a b)

pub same_letters-iequals : (a b : Bytes) → length a ≡ length b → same_letters a b ≡ pdns_iequals a b
unfolding same_letters pdns_iequals
same_letters-iequals [] [] h = refl
same_letters-iequals [] (y ∷ ys) h = absurd (omega arith)
same_letters-iequals (x ∷ xs) [] h = absurd (omega arith)
same_letters-iequals (x ∷ xs) (y ∷ ys) h = ground (arith, same_letters-iequals xs ys)

pub iequals-length : (a b : Bytes) → pdns_iequals a b ≡ true → length a ≡ length b
unfolding pdns_iequals
iequals-length [] [] h = refl
iequals-length [] (y ∷ ys) h = cc
iequals-length (x ∷ xs) [] h = cc
iequals-length (x ∷ xs) (y ∷ ys) h = ground (arith, iequals-length xs ys)

-- `ciEqual` and `pdns_iequals`, written in two ways, are the same function.
pub ci_equal-iequals : (a b : Bytes) → ci_equal a b ≡ pdns_iequals a b
unfolding ci_equal
ci_equal-iequals a b = ground (arith, same_letters-iequals a b, iequals-length a b)

compare_self : (a b : Bytes) → pdns_iequals a b ≡ true → pdns_ilexicographical_compare a b ≡ false
unfolding pdns_iequals pdns_ilexicographical_compare
compare_self [] [] h = refl
compare_self [] (y ∷ ys) h = cc
compare_self (x ∷ xs) [] h = cc
compare_self (x ∷ xs) (y ∷ ys) h = ground (arith, compare_self xs ys)

compare_total :
    (a b : Bytes)
    → pdns_ilexicographical_compare a b ≡ false
    → pdns_ilexicographical_compare b a ≡ false
    → pdns_iequals a b ≡ true
unfolding pdns_iequals pdns_ilexicographical_compare
compare_total [] [] h k = refl
compare_total [] (y ∷ ys) h k = cc
compare_total (x ∷ xs) [] h k = cc
compare_total (x ∷ xs) (y ∷ ys) h k = ground (arith, compare_total xs ys)

pub iequals_symm : (a b : Bytes) → pdns_iequals a b ≡ true → pdns_iequals b a ≡ true
iequals_symm a b h = lower→iequals b a (sym (iequals→lower a b h))

-- Neither of two strings is below the other exactly when they are equal without regard to case.
pub compare_incomparable :
    (a b : Bytes)
    → ((pdns_ilexicographical_compare a b ≡ false) × (pdns_ilexicographical_compare b a ≡ false))
      ↔ (pdns_iequals a b ≡ true)
compare_incomparable a b = (
  λ h. compare_total a b h.0 h.1,
  λ h. (compare_self a b h, compare_self b a (iequals_symm a b h)),
)

-- The order of CIStringCompare is transitive, so the ordered indexes may use it.
pub compare_trans :
    (a b c : Bytes)
    → pdns_ilexicographical_compare a b ≡ true
    → pdns_ilexicographical_compare b c ≡ true
    → pdns_ilexicographical_compare a c ≡ true
unfolding pdns_ilexicographical_compare
compare_trans [] [] c h k = cc
compare_trans [] (y ∷ ys) [] h k = cc
compare_trans [] (y ∷ ys) (z ∷ zs) h k = refl
compare_trans (x ∷ xs) [] c h k = cc
compare_trans (x ∷ xs) (y ∷ ys) [] h k = cc
compare_trans (x ∷ xs) (y ∷ ys) (z ∷ zs) h k = ground (arith, compare_trans xs ys zs)

-- The equalities of names agree: pdns_iequals is equality in lower case, ciEqual is the same
-- function, and names are equal exactly if neither is below the other.
pub same_name_iff :
    (a b : Bytes)
    → ((pdns_iequals a b ≡ true) ↔ (to_lower a ≡ to_lower b))
      × (ci_equal a b ≡ pdns_iequals a b)
      × (((pdns_ilexicographical_compare a b ≡ false) × (pdns_ilexicographical_compare b a ≡ false))
          ↔ (pdns_iequals a b ≡ true))
same_name_iff a b = (iequals_iff a b, ci_equal-iequals a b, compare_incomparable a b)
