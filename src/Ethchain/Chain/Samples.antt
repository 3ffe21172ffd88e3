-- ===== src/Ethchain/Chain/Samples.antt =====
-- Two blocks and the chain of them, which the runs share.
use eth_go.Common.{◌≡◌, refl, arith, [], ◌∷◌, length, false, ok, none, some, same_bytes}
use eth_go.Common.Int.{pos}
use eth_go.Ethutil.Bytes.{to_bytes}
use eth_go.Ethutil.Rlp.{encode, encode_bytes, is_direct, write_slice_header}
use eth_go.Ethutil.Value.{encode_value}
use eth_go.Ethchain.Block.{Block, hash, rlp_encode, block_value, rlp_receipts, rlp_uncles}
use eth_go.Ethchain.Block.Headers.{empty_root, normal_header}
use eth_go.Ethchain.Block.RoundTrip.{SoundBlock, normal_block, hash-normal_block}
use eth_go.Ethchain.Chain.{BlockChain, get_block, add}
use eth_go.Ethchain.Chain.Stored.{HashSize, get_block-add}
use eth_go.Ethchain.Chain.Walks.{Linked, at_genesis}
use eth_go.Ethchain.Chain.Heads.{Linked-add}
use eth_go.Ethchain.Block.Samples.{toy, uncle}

abbrev pub size : HashSize toy
size b = refl

abbrev pub genesis : Block
genesis = record {
  head = record uncle { number = some (pos 0) };
  uncles = [];
  transactions = [];
  receipts = [];
}

abbrev pub genesis_sound : SoundBlock genesis
genesis_sound = record {
  head_sound = record {
    n = pos 0;
    has_number = refl;
    time_fits = omega arith;
    is_root = empty_root;
  };
  uncles_sound = tt;
  receipts_sound = tt;
}

abbrev pub second : Block
second = record genesis {
  head = record uncle { number = some (pos 1); prev_hash = hash toy genesis };
}

abbrev pub second_sound : SoundBlock second
second_sound = record {
  head_sound = record {
    n = pos 1;
    has_number = refl;
    time_fits = omega arith;
    is_root = empty_root;
  };
  uncles_sound = tt;
  receipts_sound = tt;
}

pub genesis-length : length (rlp_encode genesis) ≡ 32
unfolding rlp_encode block_value rlp_receipts rlp_uncles encode_value encode encode_bytes is_direct
    write_slice_header to_bytes
genesis-length = refl

pub second-length : length (rlp_encode second) ≡ 64
unfolding rlp_encode block_value rlp_receipts rlp_uncles encode_value encode encode_bytes is_direct
    write_slice_header to_bytes hash
second-length = refl

pub differ : same_bytes (hash toy second) (hash toy genesis) ≡ false
unfolding rlp_encode block_value rlp_receipts rlp_uncles encode_value encode encode_bytes is_direct
    write_slice_header to_bytes hash same_bytes
differ = refl

pub genesis_size : length (hash toy genesis) ≡ 32
unfolding hash
genesis_size = refl

abbrev pub no_chain : BlockChain
no_chain = record {
  genesis_block = genesis;
  td = pos 0;
  last_block_number = 0;
  current_block = none;
  last_block_hash = [];
  db = [];
}

abbrev pub one : BlockChain
one = add toy no_chain genesis

abbrev pub two : BlockChain
two = add toy one second

pub found_genesis : get_block one.db (hash toy genesis) ≡ ok (some (normal_block genesis))
found_genesis =
    get_block-add toy no_chain genesis size genesis_sound (omega (arith, genesis-length))

pub Linked-genesis : Linked toy one.db 0 (hash toy genesis) (hash toy genesis ∷ [])
unfolding normal_block normal_header
Linked-genesis =
    at_genesis (hash toy genesis) (normal_block genesis) found_genesis
      (hash-normal_block toy genesis genesis_sound) refl

pub Linked-second : Linked toy two.db 1 (hash toy second) (hash toy second ∷ hash toy genesis ∷ [])
Linked-second =
    Linked-add toy one second size 0 (hash toy genesis ∷ []) Linked-genesis
      ((genesis_size, differ), tt) second_sound (omega (arith, second-length)) refl

pub found_second : get_block two.db (hash toy second) ≡ ok (some (normal_block second))
found_second = get_block-add toy one second size second_sound (omega (arith, second-length))

-- The chain as it is loaded from its store.
abbrev pub loaded : BlockChain
loaded = record two { current_block = some (normal_block second) }
