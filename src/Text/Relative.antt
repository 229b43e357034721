-- ===== src/Text/Relative.antt =====
-- Relative and absolute forms of a name in pdns/pdns/misc.cc and pdns/pdns/misc.hh: makeRelative
-- and dotConcat, toCanonic, stripDot, splitField and stripDomainSuffix.
use powerdns_improved_lua.Prelude.{
  ℕ, suc, ◌-◌, ◌<◌, ◌≡◌, ◌≢◌, refl, sym, ap, ◌∙◌, ◌↔◌, ◌⊎◌, inl, inr, true, false, [], ◌∷◌, ◌++◌,
  arith, length, length-append, take, drop, Bool-cases, append_assoc, append-nil, get_or,
}
use powerdns_improved_lua.Name.{Bytes, bytes_eq, bytes_eq_iff, to_lower, ends_on}
use powerdns_improved_lua.Name.Suffix.{
  split_at, ends_on_iff, length-to_lower, to_lower-drop, get_or-append_length, drop-append_length,
  to_lower-append, to_lower-cons, lower_dot,
}
use mathlib.Core.Path.{ap₂}
use powerdns_improved_lua.Text.{
  make_relative, dot_concat, split_field, strip_dot, to_canonic, is_canonical, strip_domain_suffix,
}
use powerdns_improved_lua.Text.Chop.{Lacks, find-none, find-append, first_split}

pub take-append : (a b : Bytes) → take (length a) (a ++ b) ≡ a
take-append [] b = refl
take-append (x ∷ a) b = ap (◌∷◌ x) (take-append a b)

bytes_eq_longer : (a b : Bytes) → length b < length a → bytes_eq a b ≡ false
bytes_eq_longer a b h = elim (Bool-cases (bytes_eq a b)) [
  | inl e ↦ absurd (omega (arith, ap length ((bytes_eq_iff a b).0 e)))
  | inr e ↦ e
]

-- `makeRelative` takes back what `dotConcat` put on: for every name and every zone, the empty ones
-- included.
pub make_relative-dot_concat : (a zone : Bytes) → make_relative (dot_concat a zone) zone ≡ a
make_relative-dot_concat a [] = unfold make_relative dot_concat in ground (arith, append-nil a)
make_relative-dot_concat [] (z ∷ zone) =
    let same = (bytes_eq_iff (z ∷ zone) (z ∷ zone)).1 refl in
    unfold make_relative dot_concat in ground arith
make_relative-dot_concat (x ∷ a) (z ∷ zone) =
    let len = length-append a (b'.' ∷ (z ∷ zone)) in
    let cut = take-append (x ∷ a) (b'.' ∷ (z ∷ zone)) in
    let regroup = append_assoc a (b'.' ∷ []) (z ∷ zone) in
    let differ : bytes_eq (x ∷ (a ++ (b'.' ∷ (z ∷ zone)))) (z ∷ zone) ≡ false =
      bytes_eq_longer _ _ (omega arith) in
    unfold make_relative dot_concat in ground arith

-- The two parts of `splitField` make up the input: the first has no separator, and where there is
-- one in the input it stands between them.
pub split_field_parts :
    (inp : Bytes) (sepa : ℕ)
    → Lacks sepa (split_field inp sepa).0
      × (((inp ≡ (split_field inp sepa).0) × ((split_field inp sepa).1 ≡ []))
          ⊎ (inp ≡ (split_field inp sepa).0 ++ (sepa ∷ (split_field inp sepa).1)))
split_field_parts inp sepa = elim (first_split sepa inp) [
  | inl lacks ↦
      let e : split_field inp sepa ≡ (inp, []) =
        unfold split_field in ground (arith, find-none sepa inp lacks) in
      rw e (lacks, inl (refl, refl))
  | inr (l, rest, lacks, whole) ↦
      let e : split_field inp sepa ≡ (l, rest) =
        unfold split_field in
        ground (
          arith,
          whole,
          find-append sepa l rest lacks,
          take-append l (sepa ∷ rest),
          drop-append_length l rest sepa,
        ) in
      rw e (lacks, inr whole)
]

take_all : (d : Bytes) → take (length d) d ≡ d
take_all [] = refl
take_all (x ∷ xs) = ap (◌∷◌ x) (take_all xs)

drop_all : (d : Bytes) → drop (length d) d ≡ []
drop_all [] = refl
drop_all (x ∷ xs) = drop_all xs

-- A nonempty text is its front and its last byte.
pub last_split :
    (d : Bytes) → 0 < length d → d ≡ take (length d - 1) d ++ (get_or d (length d - 1) 0 ∷ [])
last_split d h =
    let e : suc (length d - 1) ≡ length d = omega arith in
    split_at (length d - 1) d (omega arith)
    ∙ ap (λ (t : Bytes). take (length d - 1) d ++ (get_or d (length d - 1) 0 ∷ t))
        (ap (λ (n : ℕ). drop n d) e ∙ drop_all d)

get_or-append_last : (a : Bytes) (c : ℕ) → get_or (a ++ (c ∷ [])) (length a) 0 ≡ c
get_or-append_last [] c = refl
get_or-append_last (x ∷ a) c = get_or-append_last a c

-- A name is canonical exactly when it is some text with a dot behind it.
pub is_canonical_iff :
    (d : Bytes) → (is_canonical d ≡ true) ↔ ((front : Bytes) × (d ≡ front ++ (b'.' ∷ [])))
is_canonical_iff d = (
  λ h.
      let full : 0 < length d = unfold is_canonical in ground arith in
      let dot : get_or d (length d - 1) 0 ≡ b'.' = unfold is_canonical in ground arith in
      (
        take (length d - 1) d,
        last_split d full ∙ ap (λ (c : ℕ). take (length d - 1) d ++ (c ∷ [])) dot,
      ),
  λ (front, e).
      let len = length-append front (b'.' ∷ []) in
      let last = get_or-append_last front b'.' in rw e (unfold is_canonical in ground arith),
)

strip_dot-dotted : (a : Bytes) → strip_dot (a ++ (b'.' ∷ [])) ≡ a
strip_dot-dotted a =
    let len = length-append a (b'.' ∷ []) in
    let last = get_or-append_last a b'.' in
    let front = take-append a (b'.' ∷ []) in unfold strip_dot in ground arith

-- `stripDot` takes off one trailing dot, and returns a name without one as it is.
pub strip_dot_cases :
    (d : Bytes) → (d ≡ strip_dot d ++ (b'.' ∷ [])) ⊎ ((is_canonical d ≡ false) × (strip_dot d ≡ d))
strip_dot_cases d = elim (Bool-cases (is_canonical d)) [
  | inl h ↦
      let (a, e) = (is_canonical_iff d).0 h in
      inl (e ∙ ap (λ (t : Bytes). t ++ (b'.' ∷ [])) (sym (ap strip_dot e ∙ strip_dot-dotted a)))
  | inr h ↦ inr (h, unfold strip_dot is_canonical in ground arith)
]

is_canonical-append : (a b : Bytes) → is_canonical b ≡ true → is_canonical (a ++ b) ≡ true
is_canonical-append a b h =
    let (front, e) = (is_canonical_iff b).0 h in
    (is_canonical_iff (a ++ b)).1
      (a ++ front, ap (◌++◌ a) e ∙ sym (append_assoc a front (b'.' ∷ [])))

dotted-canonical : (a : Bytes) → is_canonical (a ++ (b'.' ∷ [])) ≡ true
dotted-canonical a = (is_canonical_iff (a ++ (b'.' ∷ []))).1 (a, refl)

at_sign : (d : Bytes) → length d ≡ 1 → get_or d 0 0 ≡ b'@' → d ≡ b'@' ∷ []
at_sign [] h k = absurd (omega arith)
at_sign (x ∷ []) h k = ap (λ (c : ℕ). c ∷ []) k
at_sign (x ∷ y ∷ d) h k = absurd (omega arith)

-- `toCanonic` makes an absolute name, where the zone is absolute, or is empty and the name is not
-- "@".
pub to_canonic-canonical :
    (zone domain : Bytes)
    → ((is_canonical zone ≡ true) ⊎ ((zone ≡ []) × (domain ≢ b'@' ∷ [])))
    → is_canonical (to_canonic zone domain) ≡ true
unfolding to_canonic
to_canonic-canonical zone domain (inl h) =
    ground (arith, dotted-canonical domain, is_canonical-append (domain ++ (b'.' ∷ [])) zone h)
to_canonic-canonical zone domain (inr (e, other)) =
    ground (arith, at_sign domain, dotted-canonical domain, e)

-- What the last branch of `stripDomainSuffix` has found out.
strip_facts :
    (q d r : Bytes)
    → strip_domain_suffix q d ≡ (true, r)
    → ((to_lower q ≡ to_lower d) × (r ≡ b'@' ∷ []))
      ⊎ ((ends_on q d ≡ true)
          × (to_lower q ≢ to_lower d)
          × (get_or q (length q - length d - 1) 0 ≡ b'.')
          × (r ≡ take (length q - length d - 1) q))
unfolding strip_domain_suffix
strip_facts q d r h = ground (arith, bytes_eq_iff (to_lower q) (to_lower d))

longer_of_ends : (q d : Bytes) → ends_on q d ≡ true → to_lower q ≢ to_lower d → length d < length q
longer_of_ends q d h other = elim ((ends_on_iff q d).0 h) [
  | inl e ↦ nonempty q (λ p. other (p ∙ ap to_lower (sym e))) e
  | inr (inl e) ↦ absurd (other e)
  | inr (inr (front, e)) ↦ omega (
    arith,
    length-to_lower q,
    length-to_lower d,
    ap length e,
    length-append front (b'.' ∷ to_lower d),
  )
]
  where
    nonempty : (q : Bytes) → (to_lower q ≢ to_lower []) → d ≡ [] → length d < length q
    nonempty [] h e = absurd (h refl)
    nonempty (x ∷ xs) h e = omega (arith, ap length e)

ends_tail :
    (q d : Bytes)
    → ends_on q d ≡ true
    → to_lower q ≢ to_lower d
    → to_lower (drop (suc (length q - length d - 1)) q) ≡ to_lower d
ends_tail q d h other =
    let longer = longer_of_ends q d h other in
    elim ((ends_on_iff q d).0 h) [
      | inl e ↦
          let all : suc (length q - length d - 1) ≡ length q = omega (arith, ap length e, longer) in
          ap to_lower (ap (λ (k : ℕ). drop k q) all ∙ drop_all q ∙ sym e)
      | inr (inl e) ↦ absurd (other e)
      | inr (inr (front, e)) ↦
          let n : length q - length d - 1 ≡ length front = omega (
            arith,
            length-to_lower q,
            length-to_lower d,
            ap length e,
            length-append front (b'.' ∷ to_lower d),
          ) in
          ap (λ (k : ℕ). to_lower (drop (suc k) q)) n
          ∙ to_lower-drop (suc (length front)) q
          ∙ ap (drop (suc (length front))) e
          ∙ drop-append_length front (to_lower d) b'.'
    ]

strip_same : (q d : Bytes) → to_lower q ≡ to_lower d → strip_domain_suffix q d ≡ (true, b'@' ∷ [])
unfolding strip_domain_suffix
strip_same q d e =
    ground (arith, (ends_on_iff q d).1 (inr (inl e)), (bytes_eq_iff (to_lower q) (to_lower d)).1 e)

strip_longer :
    (r rest d : Bytes)
    → to_lower rest ≡ to_lower d
    → strip_domain_suffix (r ++ (b'.' ∷ rest)) d ≡ (true, r)
strip_longer r rest d low =
    let q = r ++ (b'.' ∷ rest) in
    let len : length rest ≡ length d =
      sym (length-to_lower rest) ∙ ap length low ∙ length-to_lower d in
    let whole = length-append r (b'.' ∷ rest) in
    let lowered : to_lower q ≡ to_lower r ++ (b'.' ∷ to_lower d) =
      rw (to_lower-append, to_lower-cons, lower_dot, low) in
    let ends = (ends_on_iff q d).1 (inr (inr (to_lower r, lowered))) in
    let differ : bytes_eq (to_lower q) (to_lower d) ≡ false =
      bytes_eq_longer _ _ (omega (arith, length-to_lower q, length-to_lower d)) in
    let n : length q - length d - 1 ≡ length r = omega arith in
    let dot = get_or-append_length r rest b'.' in
    let cut = take-append r (b'.' ∷ rest) in unfold strip_domain_suffix in ground arith

-- `stripDomainSuffix` succeeds exactly in two cases: the name is the domain, in any case, and
-- becomes "@"; or the name is the result, a dot and the domain, in any case.
pub strip_domain_suffix_iff :
    (qname domain r : Bytes)
    → (strip_domain_suffix qname domain ≡ (true, r)) ↔ (
        ((to_lower qname ≡ to_lower domain) × (r ≡ b'@' ∷ []))
        ⊎ ((rest : Bytes) × (qname ≡ r ++ (b'.' ∷ rest)) × (to_lower rest ≡ to_lower domain)))
strip_domain_suffix_iff q d r = (
  λ h. elim (strip_facts q d r h) [
    | inl same ↦ inl same
    | inr (ends, other, dot, cut) ↦
        let n = length q - length d - 1 in
        let longer = longer_of_ends q d ends other in
        let whole : q ≡ r ++ (b'.' ∷ drop (suc n) q) =
          split_at n q (omega (arith, longer))
          ∙ ap₂ (λ (t : Bytes) (c : ℕ). t ++ (c ∷ drop (suc n) q)) (sym cut) dot in
        inr (drop (suc n) q, whole, ends_tail q d ends other)
  ],
  λ h. elim h [
    | inl (same, e) ↦ strip_same q d same ∙ ap (λ (t : Bytes). (true, t)) (sym e)
    | inr (rest, whole, low) ↦
        ap (λ (t : Bytes). strip_domain_suffix t d) whole ∙ strip_longer r rest d low
  ],
)
