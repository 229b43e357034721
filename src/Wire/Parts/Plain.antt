-- ===== src/Wire/Parts/Plain.antt =====
-- What xfrLabel of pdns/pdns/dnswriter.cc writes for the text of a name when it does not compress.
use powerdns_improved_lua.Prelude.{
  ℕ, suc, ◌+◌, ◌-◌, ◌%◌, ◌≡◌, refl, sym, ap, ◌∙◌, inl, inr, Bool, true, false, List, [], ◌∷◌, ◌++◌,
  length, length-append, ltb, if◌then◌else◌, arith, Bool-cases, append_assoc, take, drop,
}
use powerdns_improved_lua.Name.{Bytes}
use powerdns_improved_lua.Text.Relative.{take-append}
use powerdns_improved_lua.Wire.{ok}
use powerdns_improved_lua.Wire.Reader.Labels.{escape_label, dotted, IsLabel, AreLabels, label_seq}
use powerdns_improved_lua.Wire.Parts.{
  unescaped_something, part_bytes, part_text, append_parts, write_parts, chopped_at,
}
use powerdns_improved_lua.Wire.Parts.Tokens.{
  spans, spans-cons, unescape_part-escape_label, unescaped-append, no_escapes,
}

-- The text of the label is written as its length and its bytes.
abbrev IsWritten : Bool → Bytes → Type 0
IsWritten unescaped l = part_bytes unescaped (escape_label l) ≡ ok (length l ∷ l)

abbrev AreWritten : Bool → List Bytes → Type 0
AreWritten unescaped [] = Unit
AreWritten unescaped (l ∷ ls) = IsWritten unescaped l × AreWritten unescaped ls

true-IsWritten : (l : Bytes) → IsLabel l → IsWritten true l
true-IsWritten l h =
    let raw = unescape_part-escape_label l in unfold part_bytes in rw raw (ground arith)

false-IsWritten : (l : Bytes) → IsLabel l → escape_label l ≡ l → IsWritten false l
false-IsWritten l h e =
    let len : length l % 256 ≡ length l = omega arith in unfold part_bytes in rw (e, len) refl

true-AreWritten : (ls : List Bytes) → AreLabels ls → AreWritten true ls
true-AreWritten [] h = tt
true-AreWritten (l ∷ ls) (h, hs) = (true-IsWritten l h, true-AreWritten ls hs)

pub dotted-cons :
    (l : Bytes) (ls : List Bytes) → dotted (l ∷ ls) ≡ escape_label l ++ (b'.' ∷ dotted ls)
unfolding dotted
dotted-cons l ls = refl

pub dot_unescaped :
    (s : Bytes) → unescaped_something (b'.' ∷ s) ≡ false → unescaped_something s ≡ false
unfolding unescaped_something
dot_unescaped s h = h

false-AreWritten :
    (ls : List Bytes) → AreLabels ls → unescaped_something (dotted ls) ≡ false → AreWritten false ls
false-AreWritten [] h e = tt
false-AreWritten (l ∷ ls) (h, hs) e =
    let (front, back) =
      unescaped-append (escape_label l) (b'.' ∷ dotted ls)
        (sym (ap unescaped_something (dotted-cons l ls)) ∙ e) in
    (
      false-IsWritten l h (no_escapes l front),
      false-AreWritten ls hs (dot_unescaped (dotted ls) back),
    )

pub text-AreWritten :
    (ls : List Bytes) → AreLabels ls → AreWritten (unescaped_something (dotted ls)) ls
text-AreWritten ls h = elim (Bool-cases (unescaped_something (dotted ls))) [
  | inl e ↦ rw e (true-AreWritten ls h)
  | inr e ↦ rw e (false-AreWritten ls h e)
]

drop-append : (a b : Bytes) → drop (length a) (a ++ b) ≡ b
drop-append [] b = refl
drop-append (x ∷ a) b = drop-append a b

pub part_text-label :
    (label pre l rest : Bytes)
    → label ≡ pre ++ (l ++ rest)
    → part_text label (length pre) (length pre + length l) ≡ l
unfolding part_text
part_text-label label pre l rest e =
    let n : length pre + length l - length pre ≡ length l = omega arith in
    let split : label ++ (0 ∷ []) ≡ pre ++ (l ++ (rest ++ (0 ∷ []))) =
      ap (λ (t : Bytes). t ++ (0 ∷ [])) e
      ∙ append_assoc pre (l ++ rest) (0 ∷ [])
      ∙ ap (◌++◌ pre) (append_assoc l rest (0 ∷ [])) in
    ap (λ (t : Bytes). take (length pre + length l - length pre) (drop (length pre) t)) split
    ∙ ap (take (length pre + length l - length pre)) (drop-append pre (l ++ (rest ++ (0 ∷ []))))
    ∙ ap (λ (k : ℕ). take k (l ++ (rest ++ (0 ∷ [])))) n
    ∙ take-append l (rest ++ (0 ∷ []))

-- One part, not compressed.
write_part :
    (unescaped : Bool) (label pre l rest : Bytes) (pos : ℕ) (lmap : List (Bytes × ℕ))
    (parts : List (ℕ × ℕ))
    → label ≡ pre ++ (escape_label l ++ rest)
    → IsWritten unescaped l
    → (lmap' : List (Bytes × ℕ)) × (write_parts false unescaped label pos lmap
          ((length pre, length pre + length (escape_label l)) ∷ parts)
        ≡ append_parts
            (length l ∷ l)
            (write_parts false unescaped label (pos + suc (length l)) lmap' parts))
unfolding write_parts
write_part unescaped label pre l rest pos lmap parts e w = (
  if ltb pos 16384 then lmap ++ ((chopped_at label (length pre), pos) ∷ []) else lmap,
  rw (part_text-label label pre (escape_label l) rest e, w) refl,
)

joined :
    (l : Bytes) (ls : List Bytes) (lmap : List (Bytes × ℕ))
    → append_parts (length l ∷ l) (ok (label_seq ls ++ (0 ∷ []), lmap))
      ≡ ok (label_seq (l ∷ ls) ++ (0 ∷ []), lmap)
unfolding append_parts label_seq
joined l ls lmap =
    ap (λ (t : Bytes). ok (length l ∷ t, lmap)) (sym (append_assoc l (label_seq ls) (0 ∷ [])))

-- The parts of the text of a name are written as its labels and the end of the name.
pub write_plain :
    (ls : List Bytes) (unescaped : Bool) (label pre : Bytes) (pos : ℕ) (lmap : List (Bytes × ℕ))
    → label ≡ pre ++ dotted ls
    → AreWritten unescaped ls
    → (lmap' : List (Bytes × ℕ)) × (write_parts false unescaped label pos lmap
          (spans (length pre) ls)
        ≡ ok (label_seq ls ++ (0 ∷ []), lmap'))
write_plain [] unescaped label pre pos lmap e w = (lmap, unfold spans write_parts label_seq in refl)
write_plain (l ∷ ls) unescaped label pre pos lmap e (w, ws) =
    let whole : label ≡ pre ++ (escape_label l ++ (b'.' ∷ dotted ls)) =
      e ∙ ap (◌++◌ pre) (dotted-cons l ls) in
    let here = pre ++ (escape_label l ++ (b'.' ∷ [])) in
    let later : label ≡ here ++ dotted ls =
      whole
      ∙ ap (◌++◌ pre) (sym (append_assoc (escape_label l) (b'.' ∷ []) (dotted ls)))
      ∙ sym (append_assoc pre (escape_label l ++ (b'.' ∷ [])) (dotted ls)) in
    let next = length pre + length (escape_label l) + 1 in
    let place : next ≡ length here = omega (
      arith,
      length-append pre (escape_label l ++ (b'.' ∷ [])),
      length-append (escape_label l) (b'.' ∷ []),
    ) in
    let (lmap₁, step) =
      write_part unescaped label pre l (b'.' ∷ dotted ls) pos lmap (spans next ls) whole w in
    let (lmap₂, rest) = write_plain ls unescaped label here (pos + suc (length l)) lmap₁ later ws in
    (
      lmap₂,
      ap (write_parts false unescaped label pos lmap) (spans-cons (length pre) l ls)
          ∙ step
          ∙ ap
              (λ (k : ℕ).
                append_parts (length l ∷ l)
                  (write_parts false unescaped label (pos + suc (length l)) lmap₁ (spans k ls)))
              place
          ∙ ap (append_parts (length l ∷ l)) rest
          ∙ joined l ls lmap₂,
    )
