-- ===== src/Ethvm/Asm/Lines.antt =====
-- The lines of a disassembled script, put together again.
use eth_go.Common.{
  ℕ, zero, suc, ◌≤◌, ◌≡◌, refl, sym, ap, ap₂, ◌∙◌, arith, List, [], ◌∷◌, ◌++◌, append_assoc,
  append-nil, Bool, true, false, ltb, if◌then◌else◌, Option, none, some, length, take, drop,
  length-drop, take-append-drop,
}
use eth_go.Ethvm.Asm.{
  Line, op_code, data_bytes, push_width, lines_at, put_lines, disassemble_from, disassemble,
}

abbrev pub line_bytes : Line → List ℕ
line_bytes (op_code op) = op ∷ []
line_bytes (data_bytes bs) = bs

abbrev pub all_bytes : List Line → List ℕ
all_bytes [] = []
all_bytes (l ∷ ls) = line_bytes l ++ all_bytes ls

pub all_bytes-append : (a b : List Line) → all_bytes (a ++ b) ≡ all_bytes a ++ all_bytes b
all_bytes-append [] b = refl
all_bytes-append (l ∷ a) b =
    ap (λ x. line_bytes l ++ x) (all_bytes-append a b)
    ∙ sym (append_assoc (line_bytes l) (all_bytes a) (all_bytes b))

all_bytes-lines_at :
    (op w : ℕ) (script : List ℕ) → all_bytes (lines_at op w (take w script)) ≡ op ∷ take w script
all_bytes-lines_at op zero script = refl
all_bytes-lines_at op (suc a) script = ap (λ x. op ∷ x) (append-nil (take (suc a) script))

some_injective : {A : Type 0} {a b : A} → some a ≡ some b → a ≡ b
some_injective h = cc

put_lines-some :
    (front : List Line) (r : Option (List Line)) (asm : List Line)
    → put_lines front r ≡ some asm
    → (back : List Line) × (r ≡ some back) × (front ++ back ≡ asm)
put_lines-some front none asm h = absurd (cc)
put_lines-some front (some back) asm h = (back, refl, cc)

-- A test that gives nothing has not been passed.
if_some :
    {A : Type 0} (b : Bool) (r : Option A) (a : A)
    → (if b then none else r) ≡ some a
    → (b ≡ false) × (r ≡ some a)
if_some true r a h = absurd (cc)
if_some false r a h = (refl, h)

disassemble_from-bytes :
    (fuel : ℕ) (script : List ℕ) (asm : List Line)
    → length script ≤ fuel
    → disassemble_from fuel script ≡ some asm
    → all_bytes asm ≡ script
unfolding disassemble_from
disassemble_from-bytes zero [] asm le h = ap all_bytes (some_injective (sym h))
disassemble_from-bytes zero (op ∷ script) asm le h = absurd (omega arith)
disassemble_from-bytes (suc fuel) [] asm le h = ap all_bytes (some_injective (sym h))
disassemble_from-bytes (suc fuel) (op ∷ script) asm le h =
    let w : ℕ = push_width op in
    let front = lines_at op w (take w script) in
    let (enough, h1) = if_some (ltb (length script) w) _ asm h in
    let (back, e, whole) = put_lines-some front _ asm h1 in
    let tail =
      disassemble_from-bytes fuel (drop w script) back (omega (arith, length-drop w script)) e in
    ap all_bytes (sym whole)
    ∙ all_bytes-append front back
    ∙ ap₂ ◌++◌ (all_bytes-lines_at op w script) tail
    ∙ ap (λ l. op ∷ l) (take-append-drop w script)

-- If Disassemble returns lines, their op codes and bytes one after the other are the script.
pub disassemble-bytes :
    (script : List ℕ) (asm : List Line) → disassemble script ≡ some asm → all_bytes asm ≡ script
unfolding disassemble
disassemble-bytes script asm h = disassemble_from-bytes (length script) script asm (omega arith) h
