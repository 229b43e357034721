-- ===== src/Name/Suffix.antt =====
-- What `endsOn` and `dottedEndsOn` of pdns/pdns/misc.cc decide.
use powerdns_improved_lua.Prelude.{
  ℕ, zero, suc, ◌+◌, ◌-◌, ◌<◌, ◌≡◌, refl, sym, ap, ◌∙◌, ◌↔◌, ◌⊎◌, inl, inr, true, [], ◌∷◌, ◌++◌,
  arith, length, length-append, length-map, take, drop, get_or, length-drop, ◌==◌, ==_iff,
  Bool-cases, length,
}
use powerdns_improved_lua.Name.{
  Bytes, dns_tolower, to_lower, same_letters, ci_equal, ends_behind_dot, ends_on, dotted_ends_on,
  bytes_eq, bytes_eq_iff,
}
use powerdns_improved_lua.Name.Compare.{iequals_iff, same_letters-iequals, ci_equal-iequals}
use mathlib.Core.List.{map-append}
use native.Mathlib.Numerals.{add-one}

-- Behind a dot the domain has the suffix, without regard to case.
abbrev pub HasLabelSuffix : Bytes → Bytes → Type 0
HasLabelSuffix domain suffix =
    (front : Bytes) × (to_lower domain ≡ front ++ (b'.' ∷ to_lower suffix))

pub to_lower-drop : (n : ℕ) (d : Bytes) → to_lower (drop n d) ≡ drop n (to_lower d)
unfolding to_lower
to_lower-drop zero d = refl
to_lower-drop (suc n) [] = refl
to_lower-drop (suc n) (x ∷ xs) = to_lower-drop n xs

get_or-to_lower : (n : ℕ) (d : Bytes) → get_or (to_lower d) n 0 ≡ dns_tolower (get_or d n 0)
unfolding to_lower dns_tolower
get_or-to_lower n [] = refl
get_or-to_lower zero (x ∷ xs) = refl
get_or-to_lower (suc n) (x ∷ xs) = get_or-to_lower n xs

pub length-to_lower : (d : Bytes) → length (to_lower d) ≡ length d
unfolding to_lower
length-to_lower d = length-map d dns_tolower

dot_of_lower : (c : ℕ) → dns_tolower c ≡ b'.' → c ≡ b'.'
unfolding dns_tolower
dot_of_lower c h = ground arith

pub get_or-append_length : (p q : Bytes) (c : ℕ) → get_or (p ++ (c ∷ q)) (length p) 0 ≡ c
get_or-append_length [] q c = refl
get_or-append_length (x ∷ p) q c = get_or-append_length p q c

pub drop-append_length : (p q : Bytes) (c : ℕ) → drop (suc (length p)) (p ++ (c ∷ q)) ≡ q
drop-append_length [] q c = refl
drop-append_length (x ∷ p) q c = drop-append_length p q c

-- A list with an element at an index, split there.
pub split_at : (n : ℕ) (d : Bytes) → n < length d → d ≡ take n d ++ (get_or d n 0 ∷ drop (suc n) d)
split_at n [] h = absurd (omega arith)
split_at zero (x ∷ xs) h = refl
split_at (suc n) (x ∷ xs) h = ap (◌∷◌ x) (split_at n xs (omega arith))

pub to_lower-append : (a b : Bytes) → to_lower (a ++ b) ≡ to_lower a ++ to_lower b
unfolding to_lower
to_lower-append a b = map-append dns_tolower a b

pub to_lower-cons : (c : ℕ) (b : Bytes) → to_lower (c ∷ b) ≡ dns_tolower c ∷ to_lower b
unfolding to_lower
to_lower-cons c b = refl

pub lower_dot : dns_tolower b'.' ≡ b'.'
unfolding dns_tolower
lower_dot = refl

-- The facts that the test behind the dot leaves.
behind_dot_facts :
    (d s : Bytes)
    → ends_behind_dot d s ≡ true
    → (length s < length d)
      × (get_or d (length d - length s - 1) 0 ≡ b'.')
      × (same_letters (drop (suc (length d - length s - 1)) d) s ≡ true)
unfolding ends_behind_dot
behind_dot_facts d s h = ground (arith, add-one (length d - length s - 1))

behind_dot_sound : (d s : Bytes) → ends_behind_dot d s ≡ true → HasLabelSuffix d s
behind_dot_sound d s h =
    let (longer, dot, same) = behind_dot_facts d s h in
    let n = length d - length s - 1 in
    let tail = drop (suc n) d in
    let len : length tail ≡ length s = omega (arith, length-drop (suc n) d) in
    let eq : to_lower tail ≡ to_lower s =
      (iequals_iff tail s).0 (sym (same_letters-iequals tail s len) ∙ same) in
    (
      to_lower (take n d),
      ap to_lower (split_at n d (omega arith))
          ∙ rw (to_lower-append, to_lower-cons, dot, lower_dot, eq),
    )

behind_dot_complete : (d s : Bytes) → HasLabelSuffix d s → ends_behind_dot d s ≡ true
behind_dot_complete d s (p, e) =
    let len : length d ≡ length p + suc (length s) =
      sym (length-to_lower d)
      ∙ ap length e
      ∙ length-append p (b'.' ∷ to_lower s)
      ∙ ap (λ (k : ℕ). length p + suc k) (length-to_lower s) in
    let n : length d - length s - 1 ≡ length p = omega arith in
    let dot : get_or d (length p) 0 ≡ b'.' = dot_of_lower _ (
      sym (get_or-to_lower (length p) d)
      ∙ ap (λ (l : Bytes). get_or l (length p) 0) e
      ∙ get_or-append_length p (to_lower s) b'.') in
    let rest : to_lower (drop (suc (length p)) d) ≡ to_lower s =
      to_lower-drop (suc (length p)) d
      ∙ ap (drop (suc (length p))) e
      ∙ drop-append_length p (to_lower s) b'.' in
    let same : same_letters (drop (suc (length p)) d) s ≡ true =
      same_letters-iequals _ s (omega (arith, length-drop (suc (length p)) d))
      ∙ (iequals_iff _ s).1 rest in
    unfold ends_behind_dot in ground (arith, n, dot, same, add-one (length p))

length_zero : (s : Bytes) → length s ≡ 0 → s ≡ []
length_zero [] h = refl
length_zero (x ∷ xs) h = absurd (omega arith)

ci_equal_iff : (a b : Bytes) → (ci_equal a b ≡ true) ↔ (to_lower a ≡ to_lower b)
ci_equal_iff a b = (
  λ h. (iequals_iff a b).0 (sym (ci_equal-iequals a b) ∙ h),
  λ h. ci_equal-iequals a b ∙ (iequals_iff a b).1 h,
)

-- `endsOn` accepts exactly the empty suffix, the domain itself in any case, and what stands behind
-- a dot of the domain in any case.
pub ends_on_iff :
    (domain suffix : Bytes)
    → (ends_on domain suffix ≡ true)
      ↔ ((suffix ≡ []) ⊎ ((to_lower domain ≡ to_lower suffix) ⊎ HasLabelSuffix domain suffix))
ends_on_iff d s = (
  λ h. elim (Bool-cases (length s == 0)) [
    | inl e ↦ inl (length_zero s ((==_iff _ _).0 e))
    | inr e ↦ elim (Bool-cases (ci_equal d s)) [
      | inl same ↦ inr (inl ((ci_equal_iff d s).0 same))
      | inr other ↦ inr (inr (behind_dot_sound d s (unfold ends_on in ground arith)))
    ]
  ],
  λ h. elim h [
    | inl e ↦ rw e (unfold ends_on in refl)
    | inr (inl e) ↦ let same = (ci_equal_iff d s).1 e in unfold ends_on in ground arith
    | inr (inr e) ↦ let behind = behind_dot_complete d s e in unfold ends_on in ground arith
  ],
)

-- `dottedEndsOn` accepts exactly the root ".", the domain itself in any case, and what stands
-- behind a dot of the domain in any case.
pub dotted_ends_on_iff :
    (domain suffix : Bytes)
    → (dotted_ends_on domain suffix ≡ true) ↔ (
        (suffix ≡ b'.' ∷ []) ⊎ ((to_lower domain ≡ to_lower suffix) ⊎ HasLabelSuffix domain suffix))
dotted_ends_on_iff d s = (
  λ h. elim (Bool-cases (bytes_eq s (b'.' ∷ []))) [
    | inl e ↦ inl ((bytes_eq_iff s (b'.' ∷ [])).0 e)
    | inr e ↦ elim (Bool-cases (ci_equal d s)) [
      | inl same ↦ inr (inl ((ci_equal_iff d s).0 same))
      | inr other ↦ inr (inr (behind_dot_sound d s (unfold dotted_ends_on in ground arith)))
    ]
  ],
  λ h. elim h [
    | inl e ↦ let root = (bytes_eq_iff s (b'.' ∷ [])).1 e in unfold dotted_ends_on in ground arith
    | inr (inl e) ↦ let same = (ci_equal_iff d s).1 e in unfold dotted_ends_on in ground arith
    | inr (inr e) ↦ let behind = behind_dot_complete d s e in unfold dotted_ends_on in ground arith
  ],
)
