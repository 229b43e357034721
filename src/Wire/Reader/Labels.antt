-- ===== src/Wire/Reader/Labels.antt =====
-- What reading a name gives on well-formed bytes: a sequence of labels, each behind its length, and
-- then a zero byte or a pointer.
use powerdns_improved_lua.Prelude.{
  ℕ, suc, ◌+◌, ◌-◌, ◌*◌, ◌%◌, ◌^◌, ◌<◌, ◌≤◌, ◌≡◌, refl, sym, ap, ◌∙◌, true, false, List, [], ◌∷◌,
  ◌++◌, length, length-append, leb, ◌==◌, if◌then◌else◌, arith, append_assoc, append-nil,
}
use mathlib.Core.Path.{ap₂}
use powerdns_improved_lua.Name.{Bytes}
use powerdns_improved_lua.Wire.{Result, ok, at}
use powerdns_improved_lua.Wire.Reader.{
  escaped, next16, label_bytes, read_pointer, label_loop, get_label_from_content, get_label,
}

-- A length byte below 192 announces a label; 0 is the end of the name.
abbrev pub IsLabel : Bytes → Type 0
IsLabel l = (0 < length l) × (length l < 192)

abbrev pub AreLabels : List Bytes → Type 0
AreLabels [] = Unit
AreLabels (l ∷ ls) = IsLabel l × AreLabels ls

abbrev pub count : List Bytes → ℕ
count [] = 0
count (l ∷ ls) = suc (count ls)

-- The labels on the wire, without the end of the name.
unfoldable pub label_seq : List Bytes → Bytes
label_seq [] = []
label_seq (l ∷ ls) = length l ∷ (l ++ label_seq ls)

-- The text of one label, and of a name with a dot behind each label.
unfoldable pub escape_label : Bytes → Bytes
unfolding escaped
escape_label [] = []
escape_label (c ∷ l) = escaped c ++ escape_label l

unfoldable pub dotted : List Bytes → Bytes
unfolding escape_label
dotted [] = []
dotted (l ∷ ls) = escape_label l ++ (b'.' ∷ dotted ls)

-- The root is written ".".
unfoldable pub name_text : List Bytes → Bytes
unfolding dotted
name_text [] = b'.' ∷ []
name_text (l ∷ ls) = dotted (l ∷ ls)

pub at-append : (pre rest : Bytes) (c : ℕ) → at (pre ++ (c ∷ rest)) (length pre) ≡ ok c
unfolding at
at-append [] rest c = refl
at-append (x ∷ pre) rest c = at-append pre rest c

pub at_of_split :
    (content pre rest : Bytes) (c : ℕ)
    → content ≡ pre ++ (c ∷ rest)
    → at content (length pre) ≡ ok c
at_of_split content pre rest c e = ap (λ (t : Bytes). at t (length pre)) e ∙ at-append pre rest c

length-snoc : (pre : Bytes) (c : ℕ) → length (pre ++ (c ∷ [])) ≡ length pre + 1
length-snoc pre c = length-append pre (c ∷ [])

pub next_small :
    (content pre rest : Bytes) (c : ℕ)
    → content ≡ pre ++ (c ∷ rest)
    → length content < 2 ^ 16
    → next16 (length pre) ≡ length (pre ++ (c ∷ []))
next_small content pre rest c e h =
    omega (arith, ap length e, length-append pre (c ∷ rest), length-snoc pre c)

label_bytes_read :
    (l content pre rest ret : Bytes)
    → content ≡ pre ++ (l ++ rest)
    → length content < 2 ^ 16
    → label_bytes (length l) content (length pre) ret
      ≡ ok (ret ++ escape_label l, length (pre ++ l))
unfolding label_bytes
label_bytes_read [] content pre rest ret e h =
    unfold escape_label in rw (append-nil, append-nil) refl
label_bytes_read (c ∷ l) content pre rest ret e h =
    let split : content ≡ (pre ++ (c ∷ [])) ++ (l ++ rest) =
      e ∙ sym (append_assoc pre (c ∷ []) (l ++ rest)) in
    let step : label_bytes (suc (length l)) content (length pre) ret
        ≡ label_bytes (length l) content (length (pre ++ (c ∷ []))) (ret ++ escaped c) =
      rw (at_of_split content pre (l ++ rest) c e, next_small content pre (l ++ rest) c e h) refl in
    step
    ∙ label_bytes_read l content (pre ++ (c ∷ [])) rest (ret ++ escaped c) split h
    ∙ unfold escape_label in rw (append_assoc, append_assoc) refl

label_loop_step :
    (follow : ℕ → Bytes → Result (Bytes × ℕ)) (fuel : ℕ) (l content pre rest ret : Bytes)
    → content ≡ pre ++ (length l ∷ (l ++ rest))
    → length content < 2 ^ 16
    → IsLabel l
    → label_loop follow (suc fuel) content (length pre) ret
      ≡ label_loop follow fuel content
          (length (pre ++ (length l ∷ l)))
          (ret ++ (escape_label l ++ (b'.' ∷ [])))
unfolding label_loop
label_loop_step follow fuel l content pre rest ret e h (full, short) =
    let before = pre ++ (length l ∷ []) in
    let split : content ≡ before ++ (l ++ rest) =
      e ∙ sym (append_assoc pre (length l ∷ []) (l ++ rest)) in
    let head = at_of_split content pre (l ++ rest) (length l) e in
    let next = next_small content pre (l ++ rest) (length l) e h in
    let bytes = label_bytes_read l content before rest ret split h in
    let nonzero : (length l == 0) ≡ false = ground arith in
    let plain : leb 192 (length l) ≡ false = ground arith in
    rw (head, next, nonzero, plain, bytes, append_assoc, append_assoc) refl

-- The loop reads the labels one after another, whatever follows them.
pub label_loop_read :
    (follow : ℕ → Bytes → Result (Bytes × ℕ)) (fuel : ℕ) (ls : List Bytes)
    (content pre rest ret : Bytes)
    → content ≡ pre ++ (label_seq ls ++ rest)
    → length content < 2 ^ 16
    → AreLabels ls
    → label_loop follow (count ls + fuel) content (length pre) ret
      ≡ label_loop follow fuel content (length (pre ++ label_seq ls)) (ret ++ dotted ls)
label_loop_read follow fuel [] content pre rest ret e h w =
    let z : 0 + fuel ≡ fuel = omega arith in
    unfold label_seq dotted in rw (z, append-nil, append-nil) refl
label_loop_read follow fuel (l ∷ ls) content pre rest ret e h (w, ws) =
    let z : suc (count ls) + fuel ≡ suc (count ls + fuel) = omega arith in
    let here = pre ++ (length l ∷ l) in
    let whole : content ≡ pre ++ (length l ∷ (l ++ (label_seq ls ++ rest))) =
      e
      ∙ ap (◌++◌ pre)
          (unfold label_seq in ap (◌∷◌ (length l)) (append_assoc l (label_seq ls) rest)) in
    let later : content ≡ here ++ (label_seq ls ++ rest) =
      whole ∙ sym (append_assoc pre (length l ∷ l) (label_seq ls ++ rest)) in
    let step =
      label_loop_step follow (count ls + fuel) l content pre (label_seq ls ++ rest) ret whole h w in
    let place : here ++ label_seq ls ≡ pre ++ label_seq (l ∷ ls) =
      append_assoc pre (length l ∷ l) (label_seq ls) ∙ ap (◌++◌ pre) (unfold label_seq in refl) in
    let text : (ret ++ (escape_label l ++ (b'.' ∷ []))) ++ dotted ls ≡ ret ++ dotted (l ∷ ls) =
      append_assoc ret (escape_label l ++ (b'.' ∷ [])) (dotted ls)
      ∙ ap (◌++◌ ret)
          (append_assoc (escape_label l) (b'.' ∷ []) (dotted ls) ∙ unfold dotted in refl) in
    ap (λ (k : ℕ). label_loop follow k content (length pre) ret) z
    ∙ step
    ∙ label_loop_read follow fuel ls content here rest (ret ++ (escape_label l ++ (b'.' ∷ [])))
        later h ws
    ∙ ap₂ (λ (p t : Bytes). label_loop follow fuel content (length p) t) place text

length-label_seq : (ls : List Bytes) → count ls ≤ length (label_seq ls)
unfolding label_seq
length-label_seq [] = omega arith
length-label_seq (l ∷ ls) = omega (arith, length-append l (label_seq ls), length-label_seq ls)

-- The end of a name, behind its labels.
end_of_name :
    (follow : ℕ → Bytes → Result (Bytes × ℕ)) (fuel : ℕ) (content pre rest ret : Bytes)
    → content ≡ pre ++ (0 ∷ rest)
    → length content < 2 ^ 16
    → label_loop follow (suc fuel) content (length pre) ret
      ≡ ok ((if length ret == 0 then b'.' ∷ [] else ret), length (pre ++ (0 ∷ [])))
unfolding label_loop
end_of_name follow fuel content pre rest ret e h =
    rw (at_of_split content pre rest 0 e, next_small content pre rest 0 e h) refl

name_of_dotted :
    (ls : List Bytes) → (if length (dotted ls) == 0 then b'.' ∷ [] else dotted ls) ≡ name_text ls
unfolding dotted name_text
name_of_dotted [] = refl
name_of_dotted (l ∷ ls) = ground (arith, length-append (escape_label l) (b'.' ∷ dotted ls))

-- Enough rounds for the labels and the end of the name, and the rounds that stay over.
fuel_split :
    (ls : List Bytes) (content pre rest : Bytes)
    → content ≡ pre ++ (label_seq ls ++ rest)
    → 0 < length rest
    → suc (length content) ≡ count ls + suc (length content - count ls)
fuel_split ls content pre rest e full = omega (
  arith,
  ap length e,
  length-append pre (label_seq ls ++ rest),
  length-append (label_seq ls) rest,
  length-label_seq ls,
)

-- A name on the wire is read as its labels with dots and backslashes escaped and a dot behind each
-- label, or "." for the root, and the position is left behind its zero byte. The labels have 1 to
-- 191 bytes, and the packet fits a uint16_t.
pub get_label-label_seq :
    (ls : List Bytes) (pre rest : Bytes)
    → AreLabels ls
    → length (pre ++ (label_seq ls ++ (0 ∷ rest))) < 2 ^ 16
    → get_label (pre ++ (label_seq ls ++ (0 ∷ rest))) (length pre)
      ≡ ok (name_text ls, length ((pre ++ label_seq ls) ++ (0 ∷ [])))
get_label-label_seq ls pre rest w h =
    let content = pre ++ (label_seq ls ++ (0 ∷ rest)) in
    let follow = get_label_from_content 10 content in
    let enough = fuel_split ls content pre (0 ∷ rest) refl (omega arith) in
    let split : content ≡ (pre ++ label_seq ls) ++ (0 ∷ rest) =
      sym (append_assoc pre (label_seq ls) (0 ∷ rest)) in
    let start : get_label content (length pre)
        ≡ label_loop follow (count ls + suc (length content - count ls)) content (length pre) [] =
      unfold get_label get_label_from_content in
      ap (λ (k : ℕ). label_loop follow k content (length pre) []) enough in
    start
    ∙ label_loop_read follow (suc (length content - count ls)) ls content pre (0 ∷ rest) [] refl h w
    ∙ end_of_name follow (length content - count ls) content (pre ++ label_seq ls) rest (dotted ls)
        split h
    ∙ ap (λ (t : Bytes). ok (t, length ((pre ++ label_seq ls) ++ (0 ∷ [])))) (name_of_dotted ls)

pointer_read :
    (follow : ℕ → Bytes → Result (Bytes × ℕ)) (fuel hi lo q : ℕ) (content pre rest ret t : Bytes)
    → content ≡ pre ++ ((192 + hi) ∷ lo ∷ rest)
    → length content < 2 ^ 16
    → hi < 64
    → lo < 256
    → 12 ≤ hi * 256 + lo
    → follow (hi * 256 + lo - 12) ret ≡ ok (t, q)
    → label_loop follow (suc fuel) content (length pre) ret ≡ ok (t, length pre + 2)
pointer_read follow fuel hi lo q content pre rest ret t e h small byte far target =
    let first = at_of_split content pre (lo ∷ rest) (192 + hi) e in
    let next = next_small content pre (lo ∷ rest) (192 + hi) e h in
    let split : content ≡ (pre ++ ((192 + hi) ∷ [])) ++ (lo ∷ rest) =
      e ∙ sym (append_assoc pre ((192 + hi) ∷ []) (lo ∷ rest)) in
    let second = at_of_split content (pre ++ ((192 + hi) ∷ [])) rest lo split in
    let after : next16 (length (pre ++ ((192 + hi) ∷ []))) ≡ length pre + 2 = omega (
      arith,
      ap length e,
      length-append pre ((192 + hi) ∷ lo ∷ rest),
      length-append pre ((192 + hi) ∷ []),
    ) in
    let offset : (256 * ((192 + hi) % 64) + lo + 2 ^ 16 - 12) % 2 ^ 16 ≡ hi * 256 + lo - 12 =
      omega arith in
    let nonzero : (192 + hi == 0) ≡ false = ground arith in
    let pointer : leb 192 (192 + hi) ≡ true = ground arith in
    unfold label_loop read_pointer in
    rw (first, nonzero, pointer, next, second, offset, target, after) refl

-- A name whose labels end in a compression pointer is read as the labels and then, with one
-- recursion less to spend, as what stands at the pointer's offset; the position is left behind the
-- pointer's two bytes. Offsets count from the header, so they are 12 at least.
pub get_label_from_content-pointer :
    (levels : ℕ) (ls : List Bytes) (hi lo q : ℕ) (pre rest ret t : Bytes)
    → AreLabels ls
    → length (pre ++ (label_seq ls ++ ((192 + hi) ∷ lo ∷ rest))) < 2 ^ 16
    → hi < 64
    → lo < 256
    → 12 ≤ hi * 256 + lo
    → get_label_from_content levels
        (pre ++ (label_seq ls ++ ((192 + hi) ∷ lo ∷ rest)))
        (hi * 256 + lo - 12)
        (ret ++ dotted ls)
      ≡ ok (t, q)
    → get_label_from_content
        (suc levels)
        (pre ++ (label_seq ls ++ ((192 + hi) ∷ lo ∷ rest)))
        (length pre)
        ret
      ≡ ok (t, length (pre ++ label_seq ls) + 2)
get_label_from_content-pointer levels ls hi lo q pre rest ret t w h small byte far target =
    let content = pre ++ (label_seq ls ++ ((192 + hi) ∷ lo ∷ rest)) in
    let follow = get_label_from_content levels content in
    let enough = fuel_split ls content pre ((192 + hi) ∷ lo ∷ rest) refl (omega arith) in
    let split : content ≡ (pre ++ label_seq ls) ++ ((192 + hi) ∷ lo ∷ rest) =
      sym (append_assoc pre (label_seq ls) ((192 + hi) ∷ lo ∷ rest)) in
    let start : get_label_from_content (suc levels) content (length pre) ret
        ≡ label_loop follow (count ls + suc (length content - count ls)) content (length pre) ret =
      unfold get_label_from_content in
      ap (λ (k : ℕ). label_loop follow k content (length pre) ret) enough in
    start
    ∙ label_loop_read follow (suc (length content - count ls)) ls content pre
        ((192 + hi) ∷ lo ∷ rest) ret refl h w
    ∙ pointer_read follow (length content - count ls) hi lo q content (pre ++ label_seq ls) rest
        (ret ++ dotted ls) t split h small byte far target
