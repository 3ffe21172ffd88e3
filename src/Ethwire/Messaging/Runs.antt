-- ===== src/Ethwire/Messaging/Runs.antt =====
-- Messages at concrete inputs, and the theorem on them.
use eth_go.Ethutil.Value.{slice_of}
use eth_go.Common.{same_bytes, slice as slice_bytes}
use eth_go.Ethutil.Bytes.{from_bytes}
use eth_go.Common.{◌≡◌, refl, arith, [], ◌∷◌, ◌++◌, map, false, length, inl, inr, ok, panic}
use eth_go.Ethutil.Bytes.{to_bytes}
use eth_go.Ethutil.Item.{bytes, slice, nil, cons, byte}
use eth_go.Ethutil.Rlp.{encode, encode_bytes, is_direct, write_slice_header}
use eth_go.Ethwire.Messaging.{Msg, invalid, read_message, read_messages, read_body, bytes_to_number}
use eth_go.Ethwire.Messaging.Frames.{IsSendable, normal_msg}
use eth_go.Ethwire.Messaging.Stream.{stream, read_messages-stream}

abbrev ping : Msg
ping = record { typ = 2; data' = slice nil }

abbrev hashes : Msg
hashes = record { typ = 24; data' = slice (cons (bytes (1 ∷ 2 ∷ 3 ∷ [])) nil) }

two_bytes : length (encode (slice (cons (byte 2) nil))) ≡ 2
unfolding encode encode_bytes is_direct write_slice_header to_bytes
two_bytes = refl

six_bytes : length (encode (slice (cons (byte 24) (cons (bytes (1 ∷ 2 ∷ 3 ∷ [])) nil)))) ≡ 6
unfolding encode encode_bytes is_direct write_slice_header to_bytes
six_bytes = refl

ping-IsSendable : IsSendable ping
unfolding slice_of
ping-IsSendable = record {
  byte_type = omega arith;
  encodable = tt;
  short = omega (arith, two_bytes);
}

hashes-IsSendable : IsSendable hashes
unfolding slice_of
hashes-IsSendable = record {
  byte_type = omega arith;
  encodable = (tt, tt);
  short = omega (arith, six_bytes);
}

too_few : read_message (34 ∷ 64 ∷ []) ≡ ok invalid
unfolding read_message
too_few = refl

-- A length above what is there panics before it is compared.
cut_off : read_message (34 ∷ 64 ∷ 8 ∷ 145 ∷ 0 ∷ 0 ∷ 0 ∷ 9 ∷ 192 ∷ []) ≡ panic
unfolding read_message read_body bytes_to_number same_bytes slice_bytes from_bytes
cut_off = refl

read_messages-stream_example :
    read_messages (stream (ping ∷ hashes ∷ []) ++ (34 ∷ 64 ∷ []))
    ≡ ok (map normal_msg (ping ∷ hashes ∷ []), false)
read_messages-stream_example =
    read_messages-stream (ping ∷ hashes ∷ []) (34 ∷ 64 ∷ [])
      (ping-IsSendable, (hashes-IsSendable, tt)) (inr (inl too_few))
