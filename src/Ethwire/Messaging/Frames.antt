-- ===== src/Ethwire/Messaging/Frames.antt =====
-- A message that is written is read, and what is behind it remains.
use eth_go.Ethutil.Rlp.RoundTrip.{decoded_bytes}
use eth_go.Ethutil.Value.{item_at}
use eth_go.Common.{
  ℕ, ◌+◌, ◌%◌, ◌^◌, ◌≤◌, ◌<◌, ◌≡◌, refl, sym, ap, ◌∙◌, arith, List, [], ◌++◌, append-nil,
  append_assoc, false, length, length-append, ok, slice as slice_bytes, slice-append, ltb, leb,
  ◌==◌, same_bytes,
}
use eth_go.Common.Int.{pos}
use eth_go.Ethutil.Bytes.{from_bytes, to_bytes}
use eth_go.Ethutil.Bytes.Numbers.{from_bytes-to_bytes}
use eth_go.Ethutil.Item.{Items, byte, slice, cons}
use eth_go.Ethutil.Rlp.{encode}
use eth_go.Ethutil.Rlp.RoundTrip.{decoded, decoded_items, AreEncodable, length-encode_pos}
use eth_go.Ethutil.Value.{get, uint_of, slice_of, encode_value}
use eth_go.Ethutil.Value.Reads.{new_value_from_slice-encode, get-decoded, uint_of-decoded_bytes}
use eth_go.Ethwire.Messaging.{
  Msg, message, magic_token, number_to_bytes, bytes_to_number, slice_from, open_message, read_body,
  read_message, write_message,
}

-- The number of four bytes is read as it was written.
bytes_to_number-number_to_bytes : (n : ℕ) → n < 2 ^ 32 → bytes_to_number (number_to_bytes n) ≡ ok n
unfolding bytes_to_number number_to_bytes from_bytes
bytes_to_number-number_to_bytes n h = ap ok (omega arith)

abbrev data_of : List ℕ → List ℕ → List ℕ → List ℕ
data_of h enc rest = h ++ (enc ++ rest)

-- The parts of bytes behind a header of eight.
module _ (h enc rest : List ℕ) (eight : length h ≡ 8) where
  length-data_of : length (data_of h enc rest) ≡ 8 + length enc + length rest
  length-data_of = omega (arith, length-append h (enc ++ rest), length-append enc rest, eight)

  enc_part : slice_bytes (data_of h enc rest) 8 (8 + length enc) ≡ ok enc
  enc_part = slice-append h enc rest 8 (8 + length enc) (sym eight) (omega (arith, eight))

  body_part : slice_bytes (data_of h enc rest) 8 (length (data_of h enc rest)) ≡ ok (enc ++ rest)
  body_part =
      ap (λ t. slice_bytes (h ++ t) 8 (length (data_of h enc rest)))
        (sym (append-nil (enc ++ rest)))
      ∙ slice-append h (enc ++ rest) [] 8 (length (data_of h enc rest)) (sym eight)
          (length-append h (enc ++ rest))

  rest_part :
      slice_bytes (data_of h enc rest) (8 + length enc) (length (data_of h enc rest)) ≡ ok rest
  rest_part =
      ap (λ t. slice_bytes t (8 + length enc) (length (data_of h enc rest)))
        (sym (append_assoc h enc rest) ∙ ap (λ r. (h ++ enc) ++ r) (sym (append-nil rest)))
      ∙ slice-append (h ++ enc) rest [] (8 + length enc) (length (data_of h enc rest))
          (omega (arith, length-append h enc, eight))
          (omega (arith, length-append h enc, eight, length-data_of))

-- The message as it is read.
unfoldable pub normal_msg : Msg → Msg
normal_msg msg = record { typ = msg.typ; data' = slice (decoded_items (slice_of msg.data')) }

-- What the theorems ask of a message.
pub record IsSendable (msg : Msg) : Type 0 where
  pub byte_type : msg.typ < 256
  pub encodable : AreEncodable (slice_of msg.data')
  pub short : length (encode (slice (cons (byte msg.typ) (slice_of msg.data')))) < 2 ^ 32

module _ (msg : Msg) (s : IsSendable msg) (rest : List ℕ) where
  abbrev all_items : Items
  all_items = cons (byte msg.typ) (slice_of msg.data')

  abbrev enc : List ℕ
  enc = encode (slice all_items)

  type_read : uint_of (get (decoded (slice all_items)) (pos 0)) ≡ ok msg.typ
  unfolding decoded decoded_bytes item_at to_bytes
  type_read =
      ap uint_of (get-decoded all_items 0 (tt, s.encodable) (omega arith))
      ∙ (uint_of-decoded_bytes (to_bytes msg.typ) ∙ ap ok small)
    where
      small : from_bytes (to_bytes msg.typ) % 2 ^ 64 ≡ msg.typ
      small = omega (arith, from_bytes-to_bytes msg.typ, s.byte_type)

  open_message-enc : open_message enc rest ≡ ok (message (normal_msg msg) rest)
  unfolding open_message normal_msg slice_from decoded slice_of
  open_message-enc =
      rw
        (
          new_value_from_slice-encode rest (slice all_items) (tt, s.encodable)
              (omega (arith, s.short)),
          type_read,
        )
        (ap
          (λ t.
            ok (
              message (record { typ = t; data' = slice (decoded_items (slice_of msg.data')) })
                rest))
          small)
    where
      small : msg.typ % 256 ≡ msg.typ
      small = omega (arith, s.byte_type)

  abbrev head_of : List ℕ
  head_of = magic_token ++ number_to_bytes (length enc)

  write_message-parts : write_message msg ++ rest ≡ data_of head_of enc rest
  unfolding write_message number_to_bytes encode_value
  write_message-parts =
      ap (λ n. (magic_token ++ (number_to_bytes n ++ enc)) ++ rest) {x = length enc % 2 ^ 32} small
    where
      small : length enc % 2 ^ 32 ≡ length enc
      small = omega (arith, s.short)

  length-head_of : length head_of ≡ 8
  unfolding number_to_bytes
  length-head_of = refl

  header_part : slice_bytes (data_of head_of enc rest) 4 8 ≡ ok (number_to_bytes (length enc))
  unfolding number_to_bytes
  header_part =
      slice-append magic_token (number_to_bytes (length enc)) (enc ++ rest) 4 8 (omega arith)
        (omega arith)

  read_body-data_of : read_body (data_of head_of enc rest) ≡ ok (message (normal_msg msg) rest)
  unfolding read_body
  read_body-data_of =
      rw
        (
          header_part,
          bytes_to_number-number_to_bytes (length enc) s.short,
          rest_part head_of enc rest length-head_of,
          body_part head_of enc rest length-head_of,
          enc_part head_of enc rest length-head_of,
          enough (length (enc ++ rest)) (length enc) (omega (arith, length-append enc rest)),
        )
        open_message-enc
    where
      enough : (a b : ℕ) → b ≤ a → ltb a b ≡ false
      enough a b h = ground arith

  read_message-data_of :
      read_message (data_of head_of enc rest) ≡ ok (message (normal_msg msg) rest)
  unfolding read_message same_bytes
  read_message-data_of = rw (not_empty, not_short) read_body-data_of
    where
      long : 8 < length (data_of head_of enc rest)
      long = omega (
        arith,
        length-data_of head_of enc rest length-head_of,
        length-encode_pos (slice all_items) (tt, s.encodable),
      )

      not_zero : (n : ℕ) → 8 < n → (n == 0) ≡ false
      not_zero n h = ground arith

      above : (n : ℕ) → 8 < n → leb n 8 ≡ false
      above n h = ground arith

      not_empty : (length (data_of head_of enc rest) == 0) ≡ false
      not_empty = not_zero (length (data_of head_of enc rest)) long

      not_short : leb (length (data_of head_of enc rest)) 8 ≡ false
      not_short = above (length (data_of head_of enc rest)) long

  pub read_message-write_message :
      read_message (write_message msg ++ rest) ≡ ok (message (normal_msg msg) rest)
  read_message-write_message = ap read_message write_message-parts ∙ read_message-data_of
