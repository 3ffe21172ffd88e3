-- ===== src/Lib.antt =====
-- eth-go, an early Ethereum node in Go: the codec, the trie, accounts and transactions, blocks and
-- their chain, the messages of the network, and the virtual machine.
--
-- The node keeps its state in a trie of RLP encoded values (ethutil, ethtrie), changes it by
-- transactions (ethchain, ethstate), runs the code of contracts in a virtual machine (ethvm), and
-- gathers transactions into a chain of blocks (ethchain) that it exchanges with peers (ethwire).
-- Modelled are these parts:
--   Common                names that all files share; Common.Outcome has panics and Go slices,
--                         Common.Int signed integers, Common.Lists lists by native numbers
--   Ethutil.Bytes         ethutil/bytes.go, ethutil/big.go: ReadVarInt is read_var_int, and so on
--   Ethutil.Item          the Go values (interface{}) that the codec and the values handle
--   Ethutil.Rlp           ethutil/rlp.go: Encode is encode, Decode is decode; the cases of the
--                         switch of Decode are functions of their own
--   Ethutil.Value         ethutil/value.go: a *Value is its Val; Uint is uint_of, BigInt big_int,
--                         and so on; Value.Arith has doOp, Value.Iterator the iterator
--   Ethtrie.Encoding      ethtrie/encoding.go: CompactEncode, CompactDecode and the hex forms
--   Ethtrie.Slice         ethtrie/slice.go
--   Ethtrie.Cache, .Trie  ethtrie/trie.go: the cache over the database; InsertState is insert_state,
--                         Get lookup_trie, and Trie.Delete has deleteState; Sha3Bin is a parameter
--   Ethstate.Object       ethstate/state_object.go: GetStorage is get_storage, and so on
--   Ethstate.Accounts     ethstate/state.go: a state, its accounts at handles of a heap, snapshots;
--                         Ethstate.Trie has what it uses of the trie, which Ethstate.HashTrie
--                         fills by the trie of Ethtrie, and Ethstate.MapTrie by a map, for tests
--   Ethchain.Transaction  ethchain/transaction.go, with the hash and the curve as parameters
--   Ethchain.Transition   ethchain/state_transition.go: TransitionState is transition_state, in parts
--                         for the check, the gas, the value and the run; Eval is a parameter
--   Ethchain.Pool         ethchain/transaction_pool.go: handle is queueHandler on one transaction
--   Ethchain.Bloom        ethchain/bloom.go
--   Ethchain.Opcodes      the tables of ethchain/types.go; Ethchain.Asm is ethchain/asm.go
--   Ethchain.Block        ethchain/block.go: Value is block_value, CalcGasLimit calc_gas_limit, and so
--                         on; a block's state is the root of its trie
--   Ethchain.Chain        ethchain/block_chain.go over a map as database
--   Ethwire.Messaging     ethwire/messaging.go: ReadMessages is read_messages, on the bytes that the
--                         socket gives
--   Ethchain.Manager      rules of ethchain/state_manager.go; the proof of work is a parameter
--   Ethvm.Stack, .Memory  ethvm/stack.go; Stack.require is the check of ethvm/vm.go
--   Ethvm.Words           ensure256 of ethvm/vm.go, and math/big on words of either sign
--   Ethvm.Vm              RunClosure of ethvm/vm.go: Instruction and Opcodes are ethvm/types.go,
--                         Cost the first switch, Arithmetic, Offsets, Steps, Accounts and Calls
--                         the second, Run the loop; run_closure counts how deep closures nest
--   Ethvm.Asm             ethvm/asm.go
--   Ethvm.Closure         ethvm/closure.go: gas over a heap of *big.Int, and the reading of code
-- The codec stands on the bytes; the values on the codec; the machine's closure reads its code as
-- a value; blocks stand on the values and on transactions, and the chain on the blocks. Each folder's
-- Runs file has tests on the data of the Go tests and the theorems at inputs.
--
-- A byte slice or a Go string is the list of its bytes. A function that can panic returns a Result,
-- and a method that changes its receiver returns the new one. Machine integers wrap where the
-- source lets them: positions of Decode are taken modulo 2 ^ 64. Go bounds a slice by the capacity:
-- Decode takes the bytes that stand behind its data within that as `spare`, and ReadMessage hands it
-- those behind the message. Every other slice that is taken apart is as long as its capacity.
-- Decode recurs on fuel, two units for each byte up to the capacity, as each call and each round of a
-- loop reads a byte or is the last. getState, InsertState and deleteState recur on fuel that the
-- caller gives, as a node can hold any other. The loops of Bytes recur on the number that they
-- divide. The loops that follow the parents of blocks recur on fuel too, a unit for each block that
-- they visit. read_messages has two rounds more than bytes, as a message has nine bytes at least.
-- The sizes that CALL takes the maximum of are rounded to float64, as there.
-- The pointers that the code shares, to accounts and to the gas of a closure, are handles into a
-- heap; a snapshot of a state has its own copies of the accounts.
--
-- Not modelled: DecodeWithReader, the iterator of the trie, the processing of blocks, peers and
-- sockets; logging and printing, which change nothing that is modelled.
pub mod Common
pub mod Ethutil
pub mod Ethtrie
pub mod Ethvm
pub mod Ethstate
pub mod Ethchain
pub mod Ethwire
