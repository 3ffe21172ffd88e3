-- ===== src/Ethtrie/Slice/Runs.antt =====
-- The theorems on nibble slices at concrete inputs.
use eth_go.Common.{◌≡◌, refl, [], ◌∷◌}
use eth_go.Ethtrie.Slice.{matching_nibble_length}

two_match : matching_nibble_length (1 ∷ 2 ∷ 3 ∷ []) (1 ∷ 2 ∷ 5 ∷ 6 ∷ []) ≡ 2
unfolding matching_nibble_length
two_match = refl
