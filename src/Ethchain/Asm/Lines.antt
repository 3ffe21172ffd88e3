-- ===== src/Ethchain/Asm/Lines.antt =====
-- The lines of a script, put together, are its front.
use eth_go.Common.{
  ℕ, zero, suc, ◌+◌, List, [], ◌∷◌, ◌++◌, map, ltb, if◌then◌else◌, length, take, drop, ◌≡◌, refl,
  ap, ◌∙◌, append_assoc, append-nil, take-append-drop, Bool, true, false,
}
use eth_go.Ethvm.Asm.{Line, push_width}
use eth_go.Ethvm.Asm.Lines.{all_bytes, all_bytes-append}
use eth_go.Ethchain.Asm.{placed, disassemble_from, disassemble}

abbrev pub line_of : ℕ × Line → Line
line_of (pc, l) = l

abbrev pub placed_bytes : List (ℕ × Line) → List ℕ
placed_bytes asm = all_bytes (map line_of asm)

map-append : (a b : List (ℕ × Line)) → map line_of (a ++ b) ≡ map line_of a ++ map line_of b
map-append [] b = refl
map-append (x ∷ a) b = ap (λ t. line_of x ∷ t) (map-append a b)

placed_bytes-placed :
    (pc op w : ℕ) (script : List ℕ)
    → placed_bytes (placed pc op w (take w script)) ≡ op ∷ take w script
placed_bytes-placed pc op zero script = refl
placed_bytes-placed pc op (suc a) script = ap (λ x. op ∷ x) (append-nil (take (suc a) script))

abbrev IsFront : List (ℕ × Line) → List ℕ → Type 0
IsFront asm script = (rest : List ℕ) × (placed_bytes asm ++ rest ≡ script)

by_test :
    (b : Bool) (x y : List (ℕ × Line)) (script : List ℕ)
    → IsFront x script
    → IsFront y script
    → IsFront (if b then x else y) script
by_test true x y script h k = h
by_test false x y script h k = k

disassemble_from-IsFront :
    (fuel pc : ℕ) (script : List ℕ) → IsFront (disassemble_from fuel pc script) script
unfolding disassemble_from
disassemble_from-IsFront zero pc script = (script, refl)
disassemble_from-IsFront (suc fuel) pc [] = ([], refl)
disassemble_from-IsFront (suc fuel) pc (op ∷ script) =
    let w : ℕ = push_width op in
    let (rest, e) = disassemble_from-IsFront fuel (pc + 1 + w) (drop w script) in
    by_test (ltb (length script) w) _ _ (op ∷ script) (script, refl)
      (
        rest,
        ap (λ t. t ++ rest)
              (ap all_bytes (
                  map-append (placed pc op w (take w script))
                    (disassemble_from fuel (pc + 1 + w) (drop w script)))
                ∙ all_bytes-append (map line_of (placed pc op w (take w script)))
                    (map line_of (disassemble_from fuel (pc + 1 + w) (drop w script)))
                ∙ ap (λ t. t ++ placed_bytes (disassemble_from fuel (pc + 1 + w) (drop w script)))
                    (placed_bytes-placed pc op w script))
            ∙ ap (λ t. op ∷ t)
                (append_assoc (take w script)
                    (placed_bytes (disassemble_from fuel (pc + 1 + w) (drop w script))) rest
                  ∙ ap (λ t. take w script ++ t) e
                  ∙ take-append-drop w script),
      )

-- Nothing of a script is left out in front of what a `PUSH` lacks.
pub disassemble-placed_bytes :
    (script : List ℕ) → (rest : List ℕ) × (placed_bytes (disassemble script) ++ rest ≡ script)
unfolding disassemble
disassemble-placed_bytes script = disassemble_from-IsFront (length script) 0 script
