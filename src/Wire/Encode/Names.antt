-- ===== src/Wire/Encode/Names.antt =====
-- What EncodeDNSLabel of pdns/pdns/dnsparser.cc gives for the text of a name.
use powerdns_improved_lua.Prelude.{
  ℕ, ◌+◌, ◌%◌, ◌<◌, ◌≡◌, ◌≢◌, refl, sym, ap, ◌∙◌, ◌⊎◌, Bool, true, false, List, [], ◌∷◌, ◌++◌,
  length, length-append, get_or, ◌==◌, if◌then◌else◌, arith, inl, inr, Bool-cases, append_assoc,
}
use powerdns_improved_lua.Name.{Bytes}
use powerdns_improved_lua.Wire.Reader.Labels.{
  AreLabels, IsLabel, label_seq, escape_label, dotted, name_text,
}
use powerdns_improved_lua.Wire.Parts.{label_parts, unescaped_something, replace_escape}
use powerdns_improved_lua.Wire.Parts.Tokens.{
  replace_escape-cons, escape_label-cons, escaped-cases, undouble_backslash, undot_dot, spans,
  spans-cons, label_parts-dotted, unescaped-append, no_escapes,
}
use powerdns_improved_lua.Wire.Parts.Plain.{part_text-label, dotted-cons, dot_unescaped}
use powerdns_improved_lua.Wire.Writer.Names.{wire_name, name_text_long, name_text-cons}
use powerdns_improved_lua.Wire.Encode.{encode_unescape, encode_parts, encode_dns_label}

-- The dots escaped, and nothing else.
dots : Bytes → Bytes
dots [] = []
dots (c ∷ l) = let rest = dots l in if c == b'.' then b'\\' ∷ c ∷ rest else c ∷ rest

dots-dot : (l : Bytes) → dots (b'.' ∷ l) ≡ b'\\' ∷ b'.' ∷ dots l
unfolding dots
dots-dot l = refl

dots-other : (c : ℕ) (l : Bytes) → c ≢ b'.' → dots (c ∷ l) ≡ c ∷ dots l
unfolding dots
dots-other c l h = ground arith

dots_head : (l : Bytes) → get_or (dots l) 0 (b'.' + 1) ≢ b'.'
unfolding dots
dots_head [] = omega arith
dots_head (c ∷ l) = ground arith

undouble_first_dot :
    (s : Bytes) → replace_escape b'\\' (b'\\' ∷ b'.' ∷ s) ≡ b'\\' ∷ b'.' ∷ replace_escape b'\\' s
undouble_first_dot s =
    replace_escape-cons b'\\' b'\\' (b'.' ∷ s) (inr (omega arith))
    ∙ ap (◌∷◌ b'\\') (replace_escape-cons b'\\' b'.' s (inl (omega arith)))

undouble_first : (l : Bytes) → replace_escape b'\\' (escape_label l) ≡ dots l
undouble_first [] = unfold escape_label replace_escape dots in refl
undouble_first (c ∷ l) = elim (escaped-cases c) [
  | inl (e, w) ↦
      rw (escape_label-cons, w, e)
        (undouble_first_dot (escape_label l)
          ∙ ap (λ (t : Bytes). b'\\' ∷ b'.' ∷ t) (undouble_first l)
          ∙ sym (dots-dot l))
  | inr (inl (e, w)) ↦
      rw (escape_label-cons, w, e)
        (undouble_backslash (escape_label l)
          ∙ ap (◌∷◌ b'\\') (undouble_first l)
          ∙ sym (dots-other b'\\' l (omega arith)))
  | inr (inr (h, w, d)) ↦
      rw (escape_label-cons, w)
        (replace_escape-cons b'\\' c (escape_label l) (inl h)
          ∙ ap (◌∷◌ c) (undouble_first l)
          ∙ sym (dots-other c l d))
]

undot_last : (l : Bytes) → replace_escape b'.' (dots l) ≡ l
undot_last [] = unfold replace_escape dots in refl
undot_last (c ∷ l) = elim (escaped-cases c) [
  | inl (e, w) ↦ rw (e, dots-dot) (undot_dot (dots l) ∙ ap (◌∷◌ b'.') (undot_last l))
  | inr (inl (e, w)) ↦
      rw (e, dots-other b'\\' l (omega arith))
        (replace_escape-cons b'.' b'\\' (dots l) (inr (dots_head l))
          ∙ ap (◌∷◌ b'\\') (undot_last l))
  | inr (inr (h, w, d)) ↦
      rw (dots-other c l d)
        (replace_escape-cons b'.' c (dots l) (inl h) ∙ ap (◌∷◌ c) (undot_last l))
]

encode_unescape-escape_label : (l : Bytes) → encode_unescape (escape_label l) ≡ l
unfolding encode_unescape
encode_unescape-escape_label l = ap (replace_escape b'.') (undouble_first l) ∙ undot_last l

-- What a part is encoded as, where the text has escapes and where it has none.
raw-escape_label :
    (unescaped : Bool) (l : Bytes)
    → (unescaped ≡ true) ⊎ (escape_label l ≡ l)
    → (if unescaped then encode_unescape (escape_label l) else escape_label l) ≡ l
raw-escape_label true l h = encode_unescape-escape_label l
raw-escape_label false l (inl h) = cc
raw-escape_label false l (inr h) = h

abbrev ArePlain : Bool → List Bytes → Type 0
ArePlain unescaped [] = Unit
ArePlain unescaped (l ∷ ls) = ((unescaped ≡ true) ⊎ (escape_label l ≡ l)) × ArePlain unescaped ls

true-ArePlain : (ls : List Bytes) → ArePlain true ls
true-ArePlain [] = tt
true-ArePlain (l ∷ ls) = (inl refl, true-ArePlain ls)

false-ArePlain : (ls : List Bytes) → unescaped_something (dotted ls) ≡ false → ArePlain false ls
false-ArePlain [] e = tt
false-ArePlain (l ∷ ls) e =
    let (front, back) =
      unescaped-append (escape_label l) (b'.' ∷ dotted ls)
        (sym (ap unescaped_something (dotted-cons l ls)) ∙ e) in
    (inr (no_escapes l front), false-ArePlain ls (dot_unescaped (dotted ls) back))

text-ArePlain : (ls : List Bytes) → ArePlain (unescaped_something (dotted ls)) ls
text-ArePlain ls = elim (Bool-cases (unescaped_something (dotted ls))) [
  | inl some_escapes ↦ rw some_escapes (true-ArePlain ls)
  | inr no_escape ↦ rw no_escape (false-ArePlain ls no_escape)
]

encode_part :
    (unescaped : Bool) (label pre l rest : Bytes) (parts : List (ℕ × ℕ))
    → label ≡ pre ++ (escape_label l ++ rest)
    → (unescaped ≡ true) ⊎ (escape_label l ≡ l)
    → IsLabel l
    → encode_parts unescaped label ((length pre, length pre + length (escape_label l)) ∷ parts)
      ≡ length l ∷ (l ++ encode_parts unescaped label parts)
unfolding encode_parts
encode_part unescaped label pre l rest parts e w h =
    let len : length l % 256 ≡ length l = omega arith in
    rw (part_text-label label pre (escape_label l) rest e, raw-escape_label unescaped l w, len) refl

encode_parts-spans :
    (ls : List Bytes) (unescaped : Bool) (label pre : Bytes)
    → label ≡ pre ++ dotted ls
    → ArePlain unescaped ls
    → AreLabels ls
    → encode_parts unescaped label (spans (length pre) ls) ≡ wire_name ls
encode_parts-spans [] unescaped label pre e w h =
    unfold spans encode_parts wire_name label_seq in refl
encode_parts-spans (l ∷ ls) unescaped label pre e (w, ws) (h, hs) =
    let whole : label ≡ pre ++ (escape_label l ++ (b'.' ∷ dotted ls)) =
      e ∙ ap (◌++◌ pre) (dotted-cons l ls) in
    let here = pre ++ (escape_label l ++ (b'.' ∷ [])) in
    let later : label ≡ here ++ dotted ls =
      whole
      ∙ ap (◌++◌ pre) (sym (append_assoc (escape_label l) (b'.' ∷ []) (dotted ls)))
      ∙ sym (append_assoc pre (escape_label l ++ (b'.' ∷ [])) (dotted ls)) in
    let next = length pre + length (escape_label l) + 1 in
    let place : next ≡ length here = omega (
      arith,
      length-append pre (escape_label l ++ (b'.' ∷ [])),
      length-append (escape_label l) (b'.' ∷ []),
    ) in
    ap (encode_parts unescaped label) (spans-cons (length pre) l ls)
    ∙ encode_part unescaped label pre l (b'.' ∷ dotted ls) (spans next ls) whole w h
    ∙ ap (λ (k : ℕ). length l ∷ (l ++ encode_parts unescaped label (spans k ls))) place
    ∙ ap (λ (t : Bytes). length l ∷ (l ++ t))
        (encode_parts-spans ls unescaped label here later ws hs)
    ∙ wire_name_cons l ls
  where
    wire_name_cons :
        (l : Bytes) (ls : List Bytes) → length l ∷ (l ++ wire_name ls) ≡ wire_name (l ∷ ls)
    wire_name_cons l ls =
        unfold wire_name label_seq in
        ap (◌∷◌ (length l)) (sym (append_assoc l (label_seq ls) (0 ∷ [])))

encode_dns_label_long :
    (input : Bytes)
    → 1 < length input
    → encode_dns_label input
      ≡ encode_parts (unescaped_something input) input (label_parts false 0 0 input)
unfolding encode_dns_label
encode_dns_label_long input h =
    let root : (length input == 1) ≡ false = ground arith in rw root refl

-- EncodeDNSLabel gives for the text of a name its labels, unescaped, each behind its length, and the
-- zero byte. The labels have 1 to 191 bytes, of any value.
pub encode_dns_label-name_text :
    (ls : List Bytes) → AreLabels ls → encode_dns_label (name_text ls) ≡ wire_name ls
encode_dns_label-name_text [] h = unfold encode_dns_label name_text wire_name label_seq in refl
encode_dns_label-name_text (l ∷ ls) (h, hs) =
    let text = dotted (l ∷ ls) in
    ap encode_dns_label (name_text-cons l ls)
    ∙ encode_dns_label_long text (name_text_long l ls h.0)
    ∙ ap (encode_parts (unescaped_something text) text) (label_parts-dotted (l ∷ ls) 0)
    ∙ encode_parts-spans (l ∷ ls) (unescaped_something text) text [] refl (text-ArePlain (l ∷ ls))
        (h, hs)
