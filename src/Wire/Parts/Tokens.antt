-- ===== src/Wire/Parts/Tokens.antt =====
-- What labeltokUnescape and the unescaping of pdns/pdns/dnswriter.cc do on the text of a name as
-- the reader makes it.
use powerdns_improved_lua.Prelude.{
  ℕ, ◌+◌, ◌≡◌, ◌≢◌, refl, sym, ap, ◌∙◌, ◌⊎◌, inl, inr, false, List, [], ◌∷◌, ◌++◌, length,
  length-append, ◌==◌, if◌then◌else◌, arith, append_assoc, get_or,
}
use powerdns_improved_lua.Name.{Bytes}
use powerdns_improved_lua.Wire.Reader.{escaped}
use powerdns_improved_lua.Wire.Reader.Labels.{escape_label, dotted}
use powerdns_improved_lua.Wire.Parts.{
  label_parts, unescaped_something, replace_escape, unescape_part,
}

-- The offsets of the labels in their text, from an offset on.
unfoldable pub spans : ℕ → List Bytes → List (ℕ × ℕ)
spans p [] = []
spans p (l ∷ ls) = let end = p + length (escape_label l) in (p, end) ∷ spans (end + 1) ls

label_parts-escaped :
    (c pos lpos : ℕ) (rest : Bytes)
    → label_parts false pos lpos (escaped c ++ rest)
      ≡ label_parts false (pos + length (escaped c)) lpos rest
unfolding label_parts escaped
label_parts-escaped c pos lpos rest = ground arith

label_parts-escape_label :
    (l : Bytes) (pos lpos : ℕ) (rest : Bytes)
    → label_parts false pos lpos (escape_label l ++ rest)
      ≡ label_parts false (pos + length (escape_label l)) lpos rest
label_parts-escape_label [] pos lpos rest =
    unfold escape_label in ap (λ (k : ℕ). label_parts false k lpos rest) (omega arith)
label_parts-escape_label (c ∷ l) pos lpos rest =
    let split : escape_label (c ∷ l) ++ rest ≡ escaped c ++ (escape_label l ++ rest) =
      unfold escape_label in append_assoc (escaped c) (escape_label l) rest in
    let len : pos + length (escaped c) + length (escape_label l)
        ≡ pos + length (escape_label (c ∷ l)) =
      unfold escape_label in omega (arith, length-append (escaped c) (escape_label l)) in
    ap (label_parts false pos lpos) split
    ∙ label_parts-escaped c pos lpos (escape_label l ++ rest)
    ∙ label_parts-escape_label l (pos + length (escaped c)) lpos rest
    ∙ ap (λ (k : ℕ). label_parts false k lpos rest) len

pub spans-cons :
    (p : ℕ) (l : Bytes) (ls : List Bytes)
    → spans p (l ∷ ls)
      ≡ (p, p + length (escape_label l)) ∷ spans (p + length (escape_label l) + 1) ls
unfolding spans
spans-cons p l ls = refl

-- The parts of the text of a name are its labels' places.
pub label_parts-dotted : (ls : List Bytes) (p : ℕ) → label_parts false p p (dotted ls) ≡ spans p ls
label_parts-dotted [] p = unfold label_parts dotted spans in ground arith
label_parts-dotted (l ∷ ls) p =
    let end = p + length (escape_label l) in
    let first : label_parts false p p (dotted (l ∷ ls))
        ≡ label_parts false end p (b'.' ∷ dotted ls) =
      unfold dotted in label_parts-escape_label l p p (b'.' ∷ dotted ls) in
    let dot : label_parts false end p (b'.' ∷ dotted ls)
        ≡ (p, end) ∷ label_parts false (end + 1) (end + 1) (dotted ls) =
      unfold label_parts in refl in
    first
    ∙ dot
    ∙ ap (λ (t : List (ℕ × ℕ)). (p, end) ∷ t) (label_parts-dotted ls (end + 1))
    ∙ sym (spans-cons p l ls)

-- The backslashes doubled, and nothing else escaped.
double : Bytes → Bytes
double [] = []
double (c ∷ l) = let rest = double l in if c == b'\\' then c ∷ c ∷ rest else c ∷ rest

pub replace_escape-cons :
    (b x : ℕ) (s : Bytes)
    → (x ≢ b'\\') ⊎ (get_or s 0 (b + 1) ≢ b)
    → replace_escape b (x ∷ s) ≡ x ∷ replace_escape b s
unfolding replace_escape
replace_escape-cons b x [] h = refl
replace_escape-cons b x (y ∷ s) h = ground arith

head_not_dot : (l : Bytes) → get_or (escape_label l) 0 (b'.' + 1) ≢ b'.'
unfolding escape_label
head_not_dot [] = omega arith
head_not_dot (c ∷ l) = ground arith

pub escaped-cases :
    (c : ℕ)
    → ((c ≡ b'.') × (escaped c ≡ b'\\' ∷ b'.' ∷ []))
      ⊎ (((c ≡ b'\\') × (escaped c ≡ b'\\' ∷ b'\\' ∷ []))
          ⊎ ((c ≢ b'\\') × (escaped c ≡ c ∷ []) × (c ≢ b'.')))
unfolding escaped
escaped-cases c = ground arith

double-other : (c : ℕ) (l : Bytes) → c ≢ b'\\' → double (c ∷ l) ≡ c ∷ double l
unfolding double
double-other c l h = ground arith

double-backslash : (l : Bytes) → double (b'\\' ∷ l) ≡ b'\\' ∷ b'\\' ∷ double l
unfolding double
double-backslash l = refl

pub escape_label-cons : (c : ℕ) (l : Bytes) → escape_label (c ∷ l) ≡ escaped c ++ escape_label l
unfolding escape_label
escape_label-cons c l = refl

pub undot_dot : (s : Bytes) → replace_escape b'.' (b'\\' ∷ b'.' ∷ s) ≡ b'.' ∷ replace_escape b'.' s
unfolding replace_escape
undot_dot s = refl

undot_backslash :
    (s : Bytes)
    → get_or s 0 (b'.' + 1) ≢ b'.'
    → replace_escape b'.' (b'\\' ∷ b'\\' ∷ s) ≡ b'\\' ∷ b'\\' ∷ replace_escape b'.' s
undot_backslash s h =
    let step : replace_escape b'.' (b'\\' ∷ b'\\' ∷ s) ≡ b'\\' ∷ replace_escape b'.' (b'\\' ∷ s) =
      unfold replace_escape in refl in
    step ∙ ap (◌∷◌ b'\\') (replace_escape-cons b'.' b'\\' s (inr h))

undot : (l : Bytes) → replace_escape b'.' (escape_label l) ≡ double l
undot [] = unfold escape_label replace_escape double in refl
undot (c ∷ l) = elim (escaped-cases c) [
  | inl (e, w) ↦
      rw (escape_label-cons, w, e, undot_dot, undot l) (sym (double-other b'.' l (omega arith)))
  | inr (inl (e, w)) ↦
      rw (escape_label-cons, w, e)
        (undot_backslash (escape_label l) (head_not_dot l)
          ∙ ap (λ (t : Bytes). b'\\' ∷ b'\\' ∷ t) (undot l)
          ∙ sym (double-backslash l))
  | inr (inr (h, w, d)) ↦
      rw (escape_label-cons, w)
        (replace_escape-cons b'.' c (escape_label l) (inl h)
          ∙ ap (◌∷◌ c) (undot l)
          ∙ sym (double-other c l h))
]

pub undouble_backslash :
    (s : Bytes) → replace_escape b'\\' (b'\\' ∷ b'\\' ∷ s) ≡ b'\\' ∷ replace_escape b'\\' s
unfolding replace_escape
undouble_backslash s = refl

undouble : (l : Bytes) → replace_escape b'\\' (double l) ≡ l
undouble [] = unfold replace_escape double in refl
undouble (c ∷ l) = elim (escaped-cases c) [
  | inl (e, w) ↦
      rw (e, double-other b'.' l (omega arith))
        (replace_escape-cons b'\\' b'.' (double l) (inl (omega arith)) ∙ ap (◌∷◌ b'.') (undouble l))
  | inr (inl (e, w)) ↦
      rw (e, double-backslash l) (undouble_backslash (double l) ∙ ap (◌∷◌ b'\\') (undouble l))
  | inr (inr (h, w, d)) ↦
      rw (double-other c l h)
        (replace_escape-cons b'\\' c (double l) (inl h) ∙ ap (◌∷◌ c) (undouble l))
]

-- Unescaping the text of a label gives its bytes, whatever they are.
pub unescape_part-escape_label : (l : Bytes) → unescape_part (escape_label l) ≡ l
unfolding unescape_part
unescape_part-escape_label l = ap (replace_escape b'\\') (undot l) ∙ undouble l

pub unescaped-append :
    (a b : Bytes)
    → unescaped_something (a ++ b) ≡ false
    → (unescaped_something a ≡ false) × (unescaped_something b ≡ false)
unfolding unescaped_something
unescaped-append [] b h = (refl, h)
unescaped-append (c ∷ a) b h = ground (arith, unescaped-append a b)

pub no_escapes : (l : Bytes) → unescaped_something (escape_label l) ≡ false → escape_label l ≡ l
no_escapes [] h = unfold escape_label in refl
no_escapes (c ∷ l) h =
    let (head, tail) =
      unescaped-append (escaped c) (escape_label l)
        (sym (ap unescaped_something (escape_label-cons c l)) ∙ h) in
    elim (escaped-cases c) [
      | inl (e, w) ↦
          let bad = sym (ap unescaped_something w) ∙ head in unfold unescaped_something in cc
      | inr (inl (e, w)) ↦
          let bad = sym (ap unescaped_something w) ∙ head in unfold unescaped_something in cc
      | inr (inr (k, w, d)) ↦ rw (escape_label-cons, w) (ap (◌∷◌ c) (no_escapes l tail))
    ]
