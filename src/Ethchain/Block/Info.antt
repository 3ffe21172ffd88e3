-- ===== src/Ethchain/Block/Info.antt =====
-- What is noted of a block comes back.
use eth_go.Common.{ℕ, ◌^◌, ◌<◌, ◌≡◌, refl, ap, ◌∙◌, arith, [], ◌∷◌, ok}
use eth_go.Common.Int.{pos}
use eth_go.Ethutil.Item.{Item, Items, num, uint64, bytes, slice, items_of}
use eth_go.Ethutil.Rlp.Total.{Fits}
use eth_go.Ethutil.Rlp.RoundTrip.{decoded}
use eth_go.Ethutil.Value.{get, item_at, encode_value}
use eth_go.Ethutil.Value.Reads.{
  new_value_from_bytes-encode, get-decoded, uint_of-decoded, bytes_of-decoded_bytes,
}
use eth_go.Ethchain.Block.{BlockInfo, info_decode, info_encode}

abbrev info_items : BlockInfo → Items
info_items bi = items_of (num uint64 (pos bi.number) ∷ bytes bi.hash ∷ bytes bi.parent ∷ [])

module _ (bi : BlockInfo) where
  part :
      (i : ℕ) (x : Item)
      → i < 3
      → item_at (info_items bi) i ≡ x
      → get (decoded (slice (info_items bi))) (pos i) ≡ decoded x
  part i x lt e = get-decoded (info_items bi) i (tt, (tt, (tt, tt))) (omega arith) ∙ ap decoded e

  -- What is noted of a block whose number is below 2 ^ 63 is read back as it was.
  pub info_decode-info_encode :
      bi.number < 2 ^ 63 → Fits (info_encode bi) → info_decode (info_encode bi) ≡ ok bi
  unfolding info_decode info_encode encode_value item_at decoded
  info_decode-info_encode small fits =
      rw
        (
          new_value_from_bytes-encode (slice (info_items bi)) (tt, (tt, (tt, tt))) fits,
          part 0 (num uint64 (pos bi.number)) (omega arith) refl,
          uint_of-decoded uint64 bi.number small,
          part 1 (bytes bi.hash) (omega arith) refl,
          bytes_of-decoded_bytes bi.hash,
          part 2 (bytes bi.parent) (omega arith) refl,
          bytes_of-decoded_bytes bi.parent,
        )
        refl
