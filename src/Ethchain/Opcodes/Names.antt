-- ===== src/Ethchain/Opcodes/Names.antt =====
-- The older table of names against the one of package ethvm.
use Prim.Native.String.{String}
use text.Mathlib.Text.{◌==◌ as str_eq}
use text.Mathlib.TextEquality.{eq_iff}
use eth_go.Common.{
  ℕ, ◌<◌, ◌≡◌, refl, ap, sym, ◌∙◌, Bool, true, Option, none, some, holds_upto, table_entry,
}
use eth_go.Ethchain.Opcodes.{string_of, name_in}
use eth_go.Ethvm.Opcodes.{string_of as vm_string_of, name_in as vm_name_in}

-- No two different names.
abbrev agree : Option String → Option String → Bool
agree none _ = true
agree (some s) none = true
agree (some s) (some t) = str_eq s t

table : holds_upto (λ o. agree (string_of o) (vm_string_of o)) 256 ≡ true
unfolding holds_upto string_of name_in vm_string_of vm_name_in
table = refl

agree-eq :
    (a b : Option String) (s t : String)
    → agree a b ≡ true
    → a ≡ some s
    → b ≡ some t
    → some s ≡ some t
agree-eq none b s t h ea eb = absurd (cc)
agree-eq (some s') none s t h ea eb = absurd (cc)
agree-eq (some s') (some t') s t h ea eb = sym ea ∙ (ap some ((eq_iff s' t').0 h) ∙ eb)

-- A byte that both packages name has one name.
pub string_of-vm_string_of :
    (o : ℕ) (s t : String)
    → o < 256
    → string_of o ≡ some s
    → vm_string_of o ≡ some t
    → some s ≡ some t
string_of-vm_string_of o s t h =
    agree-eq (string_of o) (vm_string_of o) s t
      (table_entry (λ o. agree (string_of o) (vm_string_of o)) o 256 h table)
