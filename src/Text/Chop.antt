-- ===== src/Text/Chop.antt =====
-- `chopOff` and `chopOffDotted` of pdns/pdns/misc.cc: one label is taken off the front.
use powerdns_improved_lua.Prelude.{
  ℕ, zero, suc, ◌<◌, ◌≡◌, ◌≢◌, refl, sym, ap, ◌∙◌, ◌↔◌, ◌⊎◌, inl, inr, true, false, [], ◌∷◌, ◌++◌,
  arith, length, length-append, ◌==◌, ==_iff, Bool-cases, append_assoc, none, some,
}
use powerdns_improved_lua.Name.{Bytes}
use powerdns_improved_lua.Name.Suffix.{drop-append_length}
use powerdns_improved_lua.Text.{find, chop_off, chop_off_dotted}

-- No byte of the text is `c`.
abbrev pub Lacks : ℕ → Bytes → Type 0
Lacks c [] = Unit
Lacks c (x ∷ xs) = (x ≢ c) × Lacks c xs

pub find-none : (c : ℕ) (s : Bytes) → Lacks c s → find c s ≡ none
unfolding find
find-none c [] h = refl
find-none c (x ∷ xs) h = ground (arith, find-none c xs)

pub find-append : (c : ℕ) (l rest : Bytes) → Lacks c l → find c (l ++ (c ∷ rest)) ≡ some (length l)
unfolding find
find-append c [] rest h = ground arith
find-append c (x ∷ l) rest h = ground (arith, find-append c l rest)

-- Every text has no `c`, or is a part without `c`, then `c`, then the rest.
pub first_split :
    (c : ℕ) (s : Bytes)
    → Lacks c s ⊎ ((l : Bytes) × (rest : Bytes) × Lacks c l × (s ≡ l ++ (c ∷ rest)))
first_split c [] = inl tt
first_split c (x ∷ xs) = elim (Bool-cases (x == c)) [
  | inl e ↦ inr ([], xs, tt, ap (λ (y : ℕ). y ∷ xs) ((==_iff x c).0 e))
  | inr e ↦ elim (first_split c xs) [
    | inl h ↦ inl (ground arith, h)
    | inr (l, rest, h, eq) ↦ inr (x ∷ l, rest, (ground arith, h), ap (◌∷◌ x) eq)
  ]
]

-- The behaviour on the three forms of a name.
chop_off-label : (l rest : Bytes) → Lacks b'.' l → chop_off (l ++ (b'.' ∷ rest)) ≡ (true, rest)
unfolding chop_off
chop_off-label l rest h = ground (
  arith,
  length-append l (b'.' ∷ rest),
  find-append b'.' l rest h,
  drop-append_length l rest b'.',
)

chop_off-last : (x : ℕ) (l : Bytes) → Lacks b'.' (x ∷ l) → chop_off (x ∷ l) ≡ (true, [])
unfolding chop_off
chop_off-last x l h = ground (arith, find-none b'.' (x ∷ l) h)

-- The texts that repeated calls of `chopOff` leave.
pub data Chops (domain : Bytes) : Bytes → Type 0 where
  start : Chops domain domain
  chopped : {d e : Bytes} → Chops domain d → chop_off d ≡ (true, e) → Chops domain e

pub Chops-more : {a b c : Bytes} → chop_off a ≡ (true, b) → Chops b c → Chops a c
Chops-more h start = chopped start h
Chops-more h (chopped r k) = chopped (Chops-more h r) k

Chops-front : (n : ℕ) (front rest : Bytes) → length front < n → Chops (front ++ (b'.' ∷ rest)) rest
Chops-front zero front rest h = absurd (omega arith)
Chops-front (suc n) front rest h = elim (first_split b'.' front) [
  | inl lacks ↦ chopped start (chop_off-label front rest lacks)
  | inr (l, more, lacks, e) ↦
      let regroup : front ++ (b'.' ∷ rest) ≡ l ++ (b'.' ∷ (more ++ (b'.' ∷ rest))) =
        rw (e, append_assoc) in
      let shorter : length more < n = omega (arith, ap length e, length-append l (b'.' ∷ more)) in
      Chops-more (rw regroup (chop_off-label l (more ++ (b'.' ∷ rest)) lacks))
        (Chops-front n more rest shorter)
]

Chops-nil : (n : ℕ) (domain : Bytes) → length domain < n → Chops domain []
Chops-nil zero domain h = absurd (omega arith)
Chops-nil (suc n) [] h = start
Chops-nil (suc n) (x ∷ xs) h = elim (first_split b'.' (x ∷ xs)) [
  | inl lacks ↦ chopped start (chop_off-last x xs lacks)
  | inr (l, rest, lacks, e) ↦
      let shorter : length rest < n = omega (arith, ap length e, length-append l (b'.' ∷ rest)) in
      Chops-more (rw e (chop_off-label l rest lacks)) (Chops-nil n rest shorter)
]

-- One successful call: the last label leaves the empty name, any other leaves what follows its dot.
pub chop_off-eq :
    (d e : Bytes)
    → chop_off d ≡ (true, e)
    → ((d ≢ []) × (e ≡ [])) ⊎ ((l : Bytes) × (d ≡ l ++ (b'.' ∷ e)))
chop_off-eq [] e h = unfold chop_off in cc
chop_off-eq (x ∷ xs) e h = elim (first_split b'.' (x ∷ xs)) [
  | inl lacks ↦ let last = chop_off-last x xs lacks in inl (λ p. cc, ground arith)
  | inr (l, rest, lacks, eq) ↦
      let step : chop_off (x ∷ xs) ≡ (true, rest) = rw eq (chop_off-label l rest lacks) in
      inr (l, cc)
]

-- Each successful `chopOff` shortens the name, so the walks over the parent domains end.
pub chop_off_shorter : (d e : Bytes) → chop_off d ≡ (true, e) → length e < length d
chop_off_shorter d e h = elim (chop_off-eq d e h) [
  | inl (full, empty) ↦ nonempty d full empty
  | inr (l, eq) ↦ omega (arith, ap length eq, length-append l (b'.' ∷ e))
]
  where
    nonempty : (d : Bytes) → d ≢ [] → e ≡ [] → length e < length d
    nonempty [] full empty = absurd (full refl)
    nonempty (y ∷ ys) full empty = omega (arith, ap length empty)

Chops-sound :
    {d e : Bytes} → Chops d e → (e ≡ d) ⊎ ((e ≡ []) ⊎ ((front : Bytes) × (d ≡ front ++ (b'.' ∷ e))))
Chops-sound start = inl refl
Chops-sound {d} {e} (chopped {d = m} r k) = elim (chop_off-eq m e k) [
  | inl (full, empty) ↦ inr (inl empty)
  | inr (l, eq) ↦ elim (Chops-sound r) [
    | inl same ↦ inr (inr (l, sym same ∙ eq))
    | inr (inl empty) ↦ absurd (not_nil l (sym empty ∙ eq))
    | inr (inr (front, whole)) ↦ inr (inr (front ++ (b'.' ∷ l), whole ∙ rw (eq, append_assoc)))
  ]
]
  where
    not_nil : (l : Bytes) → ¬ ([] ≡ l ++ (b'.' ∷ e))
    not_nil l h = omega (arith, ap length h, length-append l (b'.' ∷ e))

-- Repeated `chopOff` visits exactly the domain, the names behind each of its dots, and the empty
-- name.
pub Chops-iff :
    (domain e : Bytes)
    → Chops domain e
      ↔ ((e ≡ domain) ⊎ ((e ≡ []) ⊎ ((front : Bytes) × (domain ≡ front ++ (b'.' ∷ e)))))
Chops-iff domain e = (
  Chops-sound,
  λ h. elim h [
    | inl same ↦ rw same start
    | inr (inl empty) ↦ rw empty (Chops-nil (suc (length domain)) domain (omega arith))
    | inr (inr (front, whole)) ↦ rw whole (Chops-front (suc (length front)) front e (omega arith))
  ],
)

dotted_label :
    (l : Bytes) (c : ℕ) (rest : Bytes)
    → Lacks b'.' l
    → chop_off_dotted (l ++ (b'.' ∷ (c ∷ rest))) ≡ (true, c ∷ rest)
unfolding chop_off_dotted
dotted_label l c rest h = ground (
  arith,
  length-append l (b'.' ∷ (c ∷ rest)),
  find-append b'.' l (c ∷ rest) h,
  drop-append_length l (c ∷ rest) b'.',
)

dotted_last :
    (x : ℕ) (l : Bytes)
    → Lacks b'.' (x ∷ l)
    → chop_off_dotted ((x ∷ l) ++ (b'.' ∷ [])) ≡ (true, b'.' ∷ [])
unfolding chop_off_dotted
dotted_last x l h = ground (arith, length-append l (b'.' ∷ []), find-append b'.' (x ∷ l) [] h)

dotted_none : (d : Bytes) → Lacks b'.' d → chop_off_dotted d ≡ (false, d)
unfolding chop_off_dotted
dotted_none d h = ground (arith, find-none b'.' d h)

dotted_root : chop_off_dotted (b'.' ∷ []) ≡ (false, b'.' ∷ [])
unfolding chop_off_dotted
dotted_root = refl

-- On every name `chopOffDotted` does one of four things: it refuses a name without a dot, refuses
-- the root, turns a name whose only dot is its last byte into the root, and drops the first label
-- and its dot of any other.
pub chop_off_dotted_cases :
    (d : Bytes)
    → ((Lacks b'.' d × (chop_off_dotted d ≡ (false, d)))
        ⊎ ((d ≡ b'.' ∷ []) × (chop_off_dotted d ≡ (false, d))))
      ⊎ (((l : Bytes) × (l ≢ [])
            × Lacks b'.' l
            × (d ≡ l ++ (b'.' ∷ []))
            × (chop_off_dotted d ≡ (true, b'.' ∷ [])))
          ⊎ ((l : Bytes) × (rest : Bytes) × Lacks b'.' l
              × (rest ≢ [])
              × (d ≡ l ++ (b'.' ∷ rest))
              × (chop_off_dotted d ≡ (true, rest))))
chop_off_dotted_cases d = elim (first_split b'.' d) [
  | inl lacks ↦ inl (inl (lacks, dotted_none d lacks))
  | inr ([], [], lacks, e) ↦ inl (inr (e, rw e dotted_root))
  | inr (x ∷ l, [], lacks, e) ↦ inr (inl (x ∷ l, λ p. cc, lacks, e, rw e (dotted_last x l lacks)))
  | inr (l, c ∷ rest, lacks, e) ↦
      inr (inr (l, c ∷ rest, lacks, λ p. cc, e, rw e (dotted_label l c rest lacks)))
]
