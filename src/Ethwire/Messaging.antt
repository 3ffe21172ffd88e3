-- ===== src/Ethwire/Messaging.antt =====
-- ethwire/messaging.go: messages as they stand in the bytes of a connection. What the connection
-- gives, in the order of its reads, is the list of bytes here.
pub mod Frames
pub mod Stream
mod Runs
use eth_go.Common.{
  ℕ, zero, suc, ◌+◌, ◌*◌, ◌/◌, ◌%◌, ◌^◌, List, [], ◌∷◌, ◌++◌, Bool, true, false, not, ltb, leb,
  ◌==◌, if◌then◌else◌, length, take, replicate, Result, ok, panic, out_of_fuel, ◌>>=◌,
  slice as slice_bytes, same_bytes,
}
use eth_go.Common.Int.{pos}
use eth_go.Ethutil.Bytes.{from_bytes}
use eth_go.Ethutil.Item.{Item, Items, byte, slice, nil, cons}
use eth_go.Ethutil.Value.{get, uint_of, slice_of, new_value_from_slice, encode_value}

abbrev pub magic_token : List ℕ
magic_token = 34 ∷ 64 ∷ 8 ∷ 145 ∷ []

pub record Msg : Type 0 where
  pub typ : ℕ
  pub data' : Item

-- What a call of `readMessage` returns: `finished` is done, the next three are its errors, after
-- which nothing remains, and a message has what remains behind it.
pub data Reading : Type 0 where
  finished : Reading
  invalid : Reading
  mismatch : Reading
  too_long : Reading
  message : Msg → List ℕ → Reading

-- `NumberToBytes` of a uint32 and 32 bits.
unfoldable pub number_to_bytes : ℕ → List ℕ
number_to_bytes n = n / 2 ^ 24 % 256 ∷ n / 2 ^ 16 % 256 ∷ n / 2 ^ 8 % 256 ∷ n % 256 ∷ []

-- The bytes stand behind as many zeros; a number is read from eight of them. More than eight bytes
-- do not fit the buffer, and fewer than four leave it too short to be read.
unfoldable pub bytes_to_number : List ℕ → Result ℕ
bytes_to_number b =
    let buffer = replicate (length b) 0 ++ b in
    if ltb 8 (length b)
    then panic
    else ok (if ltb (length buffer) 8 then 0 else from_bytes (take 8 buffer))

-- `slice[from:]`
abbrev pub drop_items : ℕ → Items → Result Item
drop_items zero xs = ok (slice xs)
drop_items (suc n) nil = panic
drop_items (suc n) (cons x xs) = drop_items n xs

-- `SliceFrom`
unfoldable pub slice_from : ℕ → Item → Result Item
slice_from from v = drop_items from (slice_of v)

-- The message within its bytes, which the remaining ones stand behind; a `MsgType` is a byte.
unfoldable pub open_message : List ℕ → List ℕ → Result Reading
unfolding slice_from
open_message bytes remaining = do
  decoder ← new_value_from_slice remaining bytes
  t ← uint_of (get decoder (pos 0))
  d ← slice_from 1 decoder
  ok (message (record { typ = t % 256; data' = d }) remaining)

-- What remains is sliced before the length is compared.
unfoldable pub read_body : List ℕ → Result Reading
unfolding bytes_to_number open_message
read_body data' = do
  header ← slice_bytes data' 4 8
  message_length ← bytes_to_number header
  remaining ← slice_bytes data' (8 + message_length) (length data')
  body ← slice_bytes data' 8 (length data')
  let opened = do bytes ← slice_bytes data' 8 (8 + message_length); open_message bytes remaining
  if ltb (length body) message_length then ok too_long else opened

unfoldable pub read_message : List ℕ → Result Reading
unfolding read_body
read_message data' =
    let body = read_body data' in
    if length data' == 0
    then ok finished
    else if leb (length data') 8
    then ok invalid
    else if same_bytes magic_token (take 4 data')
    then body
    else ok mismatch

-- A round of the loop of `ReadMessages`, with what the rest of the loop does: the messages, and
-- whether a call panicked, which is recovered from. An error is dropped, as the next call, on
-- nothing, has none.
abbrev pub after_reading :
    (List ℕ → Result (List Msg × Bool)) → Result Reading → Result (List Msg × Bool)
after_reading loop (ok finished) = ok ([], false)
after_reading loop (ok (message msg remaining)) = do
  (msgs, failed) ← loop remaining
  ok (msg ∷ msgs, failed)
after_reading loop (ok invalid) = loop []
after_reading loop (ok mismatch) = loop []
after_reading loop (ok too_long) = loop []
after_reading loop panic = ok ([], true)
after_reading loop out_of_fuel = out_of_fuel

unfoldable pub read_loop : ℕ → List ℕ → Result (List Msg × Bool)
unfolding read_message
read_loop zero data' = out_of_fuel
read_loop (suc fuel) data' = after_reading (λ rest. read_loop fuel rest) (read_message data')

-- A round takes nine bytes at least, or is followed by the last.
unfoldable pub read_messages : List ℕ → Result (List Msg × Bool)
unfolding read_loop
read_messages buff = read_loop (length buff + 2) buff

-- What `WriteMessage` writes.
unfoldable pub write_message : Msg → List ℕ
unfolding number_to_bytes
write_message msg =
    let encoded = encode_value (slice (cons (byte msg.typ) (slice_of msg.data'))) in
    magic_token ++ (number_to_bytes (length encoded % 2 ^ 32) ++ encoded)
