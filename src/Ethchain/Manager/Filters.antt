-- ===== src/Ethchain/Manager/Filters.antt =====
-- The bloom filter of a block finds the parties of its messages.
use eth_go.Common.{
  ℕ, ◌-◌, ◌≤◌, ◌≡◌, refl, ◌∙◌, arith, List, [], ◌∷◌, length, length-set, set as set_at, All,
  All-drop, true, false, Bool-cases, inl, inr, ltb, lt→ltb, ok, none,
}
use eth_go.Ethutil.Bytes.{IsByte}
use eth_go.Ethchain.Bloom.{BloomFilter, last_eight, mark_all, set, search_for, new_bloom_filter}
use eth_go.Ethchain.Bloom.Laws.{set-search_for}
use eth_go.Ethchain.Manager.{set_messages, create_bloom_filter}
use eth_go.Ethvm.Vm.{Message}

mark_all-ok :
    (bin is : List ℕ)
    → length bin ≡ 256
    → All IsByte is
    → (bin' : List ℕ) × (mark_all bin is ≡ ok bin') × (length bin' ≡ 256)
unfolding mark_all
mark_all-ok bin [] e h = (bin, refl, e)
mark_all-ok bin (i ∷ rest) e (hi, h) =
    let (bin', e1, l) = mark_all-ok (set_at bin i 1) rest (length-set bin i 1 ∙ e) h in
    (bin', rw (lt→ltb i (length bin) (omega (arith, e))) e1, l)

-- With a bin of 256 bytes a set does not panic.
set-ok :
    (a : List ℕ) (f : BloomFilter)
    → length f.bin ≡ 256
    → All IsByte a
    → (f' : BloomFilter) × (set a f ≡ ok f') × (length f'.bin ≡ 256)
unfolding set
set-ok a f e h = elim (Bool-cases (ltb (length a) 8)) [
  | inl short ↦ (f, short_set a f short, e)
  | inr long ↦
      let (bin, e1, l) = mark_all-ok f.bin (last_eight a) e (All-drop IsByte (length a - 8) a h) in
      (record { bin = bin }, long_set a f bin long e1, l)
]
  where
    short_set : (a : List ℕ) (f : BloomFilter) → ltb (length a) 8 ≡ true → set a f ≡ ok f
    short_set a f e = rw e refl

    long_set :
        (a : List ℕ) (f : BloomFilter) (bin : List ℕ)
        → ltb (length a) 8 ≡ false
        → mark_all f.bin (last_eight a) ≡ ok bin
        → set a f ≡ ok (record { bin = bin })
    long_set a f bin e e1 = rw (e, e1) refl

-- An address of at least eight bytes is found.
abbrev pub IsFound : BloomFilter → List ℕ → Type 0
IsFound f a = 8 ≤ length a → search_for a f ≡ ok true

abbrev pub HasBytes : Message → Type 0
HasBytes msg = All IsByte msg.to × All IsByte msg.from

abbrev pub FindsBoth : BloomFilter → Message → Type 0
FindsBoth f msg = IsFound f msg.to × IsFound f msg.from

set_messages-finds :
    (f : BloomFilter) (msgs : List Message)
    → length f.bin ≡ 256
    → All HasBytes msgs
    → (f' : BloomFilter) × (set_messages f msgs ≡ ok f')
      × ((a : List ℕ) → search_for a f ≡ ok true → search_for a f' ≡ ok true)
      × All (FindsBoth f') msgs
unfolding set_messages
set_messages-finds f [] e h = (f, refl, (λ a k. k), tt)
set_messages-finds f (msg ∷ msgs) e ((ht, hf), h) =
    let (f1, s1, e1) = set-ok msg.to f e ht in
    let (f2, s2, e2) = set-ok msg.from f1 e1 hf in
    let (f', s, keeps, finds) = set_messages-finds f2 msgs e2 h in
    (
      f',
      rw (s1, s2) s,
      (λ a k.
          keeps a ((set-search_for msg.from a f1 f2 s2).1 ((set-search_for msg.to a f f1 s1).1 k))),
      (
        (
          (λ long. keeps msg.to (
              (set-search_for msg.from msg.to f1 f2 s2).1
                ((set-search_for msg.to msg.to f f1 s1).0 long))),
          (λ long. keeps msg.from ((set-search_for msg.from msg.from f1 f2 s2).0 long)),
        ),
        finds,
      ),
    )

-- The bloom filter of messages whose addresses are bytes is made without a panic, and Search finds
-- in it the receiver and the sender of every message, if they have at least eight bytes.
pub create_bloom_filter-finds :
    (msgs : List Message)
    → All HasBytes msgs
    → (f : BloomFilter) × (create_bloom_filter msgs ≡ ok f) × All (FindsBoth f) msgs
unfolding create_bloom_filter new_bloom_filter
create_bloom_filter-finds msgs h =
    let (f, e, keeps, finds) = set_messages-finds (new_bloom_filter none) msgs refl h in
    (f, e, finds)
